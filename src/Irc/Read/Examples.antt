-- ===== src/Irc/Read/Examples.antt =====
-- bitlbee.c: a command that comes in two reads.
use bitl_steam.Common.{◌≡◌, refl, true, none, some, List, [], ◌∷◌, ◌++◌, Bytes, codes}
use bitl_steam.Irc.Line.{parse_line}
use bitl_steam.Irc.Buffer.{splitlines, Client, handle_line, process_lines, process}
use bitl_steam.Irc.Buffer.Chunks.{lines_of, rest_of, feed, kept}
use bitl_steam.Irc.Read.{Received, again, got, goes_on, processed, client_read}
use bitl_steam.Irc.Read.Stream.{AreCut, Reads, rests, reads, Reads-stream}

-- A client without a charset that records its commands.
abbrev recorder : Client (List (List Bytes))
recorder = record {
  logged_in = λ w. true;
  alive = λ w. true;
  iconv = λ w. none;
  warn_mismatch = λ w. w;
  warn_login = λ w. w;
  exec = λ w cmd. w ++ cmd ∷ [];
}

abbrev ping : List (List Bytes)
ping = (codes "PING" ∷ codes "b" ∷ []) ∷ []

abbrev three_reads : List Received
three_reads = got (codes "PI") ∷ again ∷ got (codes "NG b\r\nPO") ∷ []

first_read : client_read recorder [] none (got (codes "PI")) ≡ goes_on [] (some (codes "PI"))
unfolding client_read processed process process_lines splitlines handle_line parse_line
first_read = refl

second_read : client_read recorder [] (some (codes "PI")) again ≡ goes_on [] (some (codes "PI"))
unfolding client_read
second_read = refl

third_read :
    client_read recorder [] (some (codes "PI")) (got (codes "NG b\r\nPO"))
    ≡ goes_on ping (some (codes "PO"))
unfolding client_read processed process process_lines splitlines handle_line parse_line
third_read = refl

three-Reads : Reads recorder [] none three_reads ping (some (codes "PO"))
three-Reads = reads (got (codes "PI")) first_read (
    reads again second_read
      (reads (got (codes "NG b\r\nPO")) third_read (rests ping (some (codes "PO")))))

three-AreCut : AreCut [] three_reads
unfolding rest_of splitlines
three-AreCut = (refl, (refl, tt))

Reads-stream_example :
    (feed recorder [] (lines_of (codes "PING b\r\nPO")) ≡ (ping, true))
    × (some (codes "PO") ≡ kept (rest_of (codes "PING b\r\nPO")))
Reads-stream_example = Reads-stream recorder three-Reads three-AreCut
