-- ===== src/Irc/Buffer/Examples.antt =====
-- irc.c: runs of `irc_process`, and the theorems at concrete buffers.
use bitl_steam.Common.{◌≡◌, refl, true, none, some, List, [], ◌∷◌, ◌++◌, Bytes, codes}
use bitl_steam.Irc.Line.{parse_line}
use bitl_steam.Irc.Buffer.{splitlines, Client, handle_line, process_lines, process}
use bitl_steam.Irc.Buffer.Chunks.{process_drops}

-- A client without a charset that records its commands.
abbrev recorder : Client (List (List Bytes))
recorder = record {
  logged_in = λ w. true;
  alive = λ w. true;
  iconv = λ w. none;
  warn_mismatch = λ w. w;
  warn_login = λ w. w;
  exec = λ w cmd. w ++ cmd ∷ [];
}

abbrev two_lines : Bytes
two_lines = codes "NICK a\r\nPING b\r\nPO"

two_commands :
    process recorder [] (some two_lines)
    ≡ ((codes "NICK" ∷ codes "a" ∷ []) ∷ (codes "PING" ∷ codes "b" ∷ []) ∷ [], some (codes "PO"))
unfolding process process_lines splitlines handle_line parse_line
two_commands = refl

-- The line end came in two reads: the second command is lost.
process_drops_example : process recorder [] (some (codes "\nPING b\r\n")) ≡ ([], none)
process_drops_example = process_drops recorder [] 10 (codes "PING b\r\n") refl
