-- ===== src/Irc/Read.antt =====
-- bitlbee.c: `bitlbee_io_current_client_read`.
pub mod Stream
mod Examples
use bitl_steam.Common.{
  c_string, ℕ, Bool, Option, none, some, [], ◌∷◌, ◌++◌, Bytes, length, ltb, ◌==◌, if◌then◌else◌,
}
use bitl_steam.Irc.Buffer.{Client, process}

-- What `read` returns: the end of the connection, an error, for now or for good, or bytes, at most 512.
pub data Received : Type 0 where
  ended again failed : Received
  got : Bytes → Received

-- How the read event ends: it is kept, with the read buffer, or the client is aborted, or was freed.
pub data Reading (W : Type 0) : Type 0 where
  goes_on : W → Option Bytes → Reading W
  aborts gone : W → Reading W

abbrev pub buffer_text : Option Bytes → Bytes
buffer_text none = []
buffer_text (some s) = s

module _ {W : Type 0} (client : Client W) where
  -- The tests behind `irc_process`.
  unfoldable pub processed : W × Option Bytes → Reading W
  processed (w, buffer) =
      if client.alive w
      then (if ltb 1024 (length (buffer_text buffer)) then aborts w else goes_on w buffer)
      else gone w

  unfoldable pub client_read : W → Option Bytes → Received → Reading W
  client_read w buffer ended = aborts w
  client_read w buffer again = goes_on w buffer
  client_read w buffer failed = aborts w
  client_read w buffer (got line) =
      processed (process client w (some (buffer_text buffer ++ c_string line)))
