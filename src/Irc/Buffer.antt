-- ===== src/Irc/Buffer.antt =====
-- irc.c: the read buffer of a client and its lines, `irc_process` and `irc_splitlines`.
pub mod Chunks
pub mod Rests
mod Examples
use bitl_steam.Common.{
  ℕ, zero, suc, ◌+◌, Bool, true, false, not, ◌||◌, Option, none, some, List, [], ◌∷◌, ◌++◌, Bytes,
  length, ltb, leb, drop, take, map, ◌==◌, if◌then◌else◌,
}
use bitl_steam.Irc.Line.{push, parse_line, crlf}

abbrev pub is_newline : ℕ → Bool
is_newline c = c == 13 || c == 10

abbrev pub starts_line : Bytes → Bool
starts_line [] = false
starts_line (c ∷ s) = is_newline c

-- `irc_splitlines`: a run of line ends cuts once. The last line is the text behind the last cut.
unfoldable pub splitlines : Bytes → List Bytes
unfolding push
splitlines [] = [] ∷ []
splitlines (c ∷ s) =
    let rest = splitlines s in
    if is_newline c then (if starts_line s then rest else [] ∷ rest) else push c rest

-- What a client's commands act on. `alive` says that the connection is still there.
pub record Client (W : Type 0) : Type 0 where
  pub logged_in : W → Bool
  pub alive : W → Bool
  -- `g_convert_with_iconv`, if the client has a charset: `none` if the line could not be converted
  -- whole.
  pub iconv : W → Option (Bytes → Option Bytes)
  -- The two warnings about the charset.
  pub warn_mismatch : W → W
  pub warn_login : W → W
  -- `irc_exec`
  pub exec : W → List Bytes → W

-- `if (*temp & 0x80) *temp = '?'`
abbrev pub question_marks : Bytes → Bytes
question_marks = map (λ c. if leb 128 c then b'?' else c)

module _ {W : Type 0} (client : Client W) where
  open client use {logged_in, alive, iconv, warn_mismatch, warn_login, exec}

  -- A line that did not convert is dropped with a warning, or used with question marks at login time.
  pub unconverted : W → Bytes → W × Option Bytes
  unconverted w line =
      if logged_in w then (warn_mismatch w, none) else (warn_login w, some (question_marks line))

  pub converted : W → Bytes → Option Bytes → W × Option Bytes
  converted w line none = unconverted w line
  converted w line (some conv) = (w, some conv)

  pub convert : W → Bytes → Option (Bytes → Option Bytes) → W × Option Bytes
  convert w line none = (w, some line)
  convert w line (some f) = converted w line (f line)

  pub exec_parsed : W → Option (List Bytes) → W
  exec_parsed w none = w
  exec_parsed w (some cmd) = exec w cmd

  pub exec_line : W → Option Bytes → W
  exec_line w none = w
  exec_line w (some line) = exec_parsed w (parse_line line)

  -- One complete line in the loop of `irc_process`.
  unfoldable pub handle_line : W → Bytes → W
  unfolding unconverted converted convert exec_parsed exec_line
  handle_line w line = let (w', conv) = convert w line (iconv w) in exec_line w' conv

  -- The loop: it stops at an empty line, keeps the last line if that is not empty, and leaves the
  -- buffer alone when the connection is gone.
  unfoldable pub process_lines : W → Bytes → List Bytes → W × Option Bytes
  process_lines w old [] = (w, none)
  process_lines w old ([] ∷ more) = (w, none)
  process_lines w old ((c ∷ line) ∷ []) = (w, some (c ∷ line))
  process_lines w old ((c ∷ line) ∷ next ∷ more) =
      let w' = handle_line w (c ∷ line) in
      let rest = process_lines w' old (next ∷ more) in if alive w' then rest else (w', some old)

  unfoldable pub process : W → Option Bytes → W × Option Bytes
  process w none = (w, none)
  process w (some buffer) = process_lines w buffer (splitlines buffer)
