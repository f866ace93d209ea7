-- ===== src/Irc/Send/Examples.antt =====
-- irc.c and bitlbee.c: a queue filled and written out in portions.
use bitl_steam.Common.{◌≡◌, refl, true, false, none, some, ◌++◌, Bytes, codes}
use bitl_steam.Irc.Line.{crlf}
use bitl_steam.Irc.Send.{
  Out, output_line, or_empty, vawrite, wrote, failed, write_buffer, client_write, returns, aborts,
  strip_newlines,
}
use bitl_steam.Irc.Send.Queue.{Run, start, queue, event, IsWatched, Run-order}

abbrev idle : Out
idle = record { sendbuffer = none; watching = false; shutdown = false }

abbrev ping : Bytes
ping = codes "PING :a" ++ crlf

abbrev full : Out
full = record { sendbuffer = some ping; watching = true; shutdown = false }

abbrev half : Out
half = record { sendbuffer = some (codes ":a" ++ crlf); watching = true; shutdown = false }

queue_ping : vawrite none idle (codes "PING :a") ≡ full
unfolding vawrite output_line strip_newlines
queue_ping = refl

write_part : client_write full (wrote 5) ≡ returns true half
unfolding client_write write_buffer
write_part = refl

write_rest : client_write half (wrote 4) ≡ returns false idle
unfolding client_write write_buffer
write_rest = refl

write_error : client_write half failed ≡ aborts
unfolding client_write write_buffer
write_error = refl

strip_text : output_line none (codes "a" ++ crlf ++ codes "b") ≡ codes "a  b" ++ crlf
unfolding output_line strip_newlines
strip_text = refl

ping-Run : Run idle ping (codes "PING ") half
unfolding vawrite output_line strip_newlines client_write write_buffer
ping-Run = event half true (wrote 5) (queue none (codes "PING :a") (start idle)) refl

Run-order_example : (codes "PING " ++ or_empty half.sendbuffer ≡ ping) × IsWatched half
Run-order_example = Run-order ping-Run refl refl
