-- ===== src/Irc/Send.antt =====
-- irc.c and bitlbee.c: what is queued for a client, and how the queue is written out.
pub mod Queue
mod Examples
use bitl_steam.Common.{
  ℕ, zero, suc, ◌+◌, Bool, true, false, ◌||◌, Option, none, some, List, [], ◌∷◌, ◌++◌, Bytes,
  length, ltb, drop, take, map, ◌==◌, if◌then◌else◌,
}
use bitl_steam.Irc.Line.{crlf}

-- `IRC_MAX_LINE`
abbrev pub irc_max_line : ℕ
irc_max_line = 512

-- `strip_newlines` of lib/misc.c
unfoldable pub strip_newlines : Bytes → Bytes
strip_newlines = map (λ c. if c == 10 || c == 13 then b' ' else c)

-- The fields of `irc_t` that the queue is made of. `watching`: there is a write event.
pub record Out : Type 0 where
  pub sendbuffer : Option Bytes
  pub watching : Bool
  pub shutdown : Bool

-- `strncpy(line, conv, IRC_MAX_LINE - 2)`, if all of the line could be converted.
pub recoded : Bytes → Option Bytes → Bytes
recoded line none = line
recoded line (some conv) = take 510 conv

-- The line that `irc_vawrite` queues for a formatted text. `oconv` is the client's charset
-- conversion, if it has one.
unfoldable pub output_line : Option (Bytes → Option Bytes) → Bytes → Bytes
unfolding recoded
output_line none text = strip_newlines (take 509 text) ++ crlf
output_line (some conv) text =
    let line = strip_newlines (take 509 text) in recoded line (conv line) ++ crlf

abbrev pub or_empty : Option Bytes → Bytes
or_empty none = []
or_empty (some s) = s

unfoldable pub vawrite : Option (Bytes → Option Bytes) → Out → Bytes → Out
vawrite oconv o text = if o.shutdown then o else record o {
  sendbuffer = some (or_empty o.sendbuffer ++ output_line oconv text);
  watching = true;
}

-- What `send` or `write` returns: an error, for now or for good, or the number of bytes written.
pub data Sent : Type 0 where
  again failed : Sent
  wrote : ℕ → Sent

unfoldable pub flush_buffer : Out → Option Bytes → Sent → Out
flush_buffer o (some s) (wrote n) =
    if n == length s
    then record o { sendbuffer = none; watching = false }
    else if n == 0
    then o
    else record o { sendbuffer = some (drop n s) }
flush_buffer o _ _ = o

-- `irc_flush`
unfoldable pub flush : Out → Sent → Out
flush o r = flush_buffer o o.sendbuffer r

-- How the write event of a client ends: `true` keeps the event.
pub data Written : Type 0 where
  returns : Bool → Out → Written
  aborts : Written
  freed : Written

unfoldable pub write_buffer : Out → Option Bytes → Sent → Written
write_buffer o none _ = returns false o
write_buffer o (some s) again = returns true o
write_buffer o (some s) failed = aborts
write_buffer o (some s) (wrote n) =
    if n == 0
    then aborts
    else if n == length s
    then (if o.shutdown
        then freed
        else returns false (record o { sendbuffer = none; watching = false }))
    else returns true (record o { sendbuffer = some (drop n s) })

-- `bitlbee_io_current_client_write`
unfoldable pub client_write : Out → Sent → Written
client_write o r = write_buffer o o.sendbuffer r
