-- ===== src/Irc/Send/Queue.antt =====
-- irc.c: the lines that are queued, and the queue's write event.
use bitl_steam.Common.{
  ℕ, suc, ◌≤◌, ◌≡◌, refl, ap, sym, ◌∙◌, Bool, true, false, Option, none, some, [], ◌∷◌, ◌++◌,
  append-nil, append_assoc, Bytes, arith, All, length, length-append, length-take, take,
  take-append-drop, take-eq_of_le, if◌then◌else◌, Bool-cases, inl, inr,
}
use bitl_steam.Irc.Line.{crlf}
use bitl_steam.Irc.Buffer.{is_newline}
use bitl_steam.Irc.Send.{
  irc_max_line, strip_newlines, Out, recoded, output_line, or_empty, vawrite, Sent, wrote, again,
  failed, flush_buffer, flush, write_buffer, client_write, returns,
}

length-strip_newlines : (s : Bytes) → length (strip_newlines s) ≡ length s
unfolding strip_newlines
length-strip_newlines [] = refl
length-strip_newlines (c ∷ s) = ap suc (length-strip_newlines s)

strip_newlines_plain : (s : Bytes) → All (λ c. is_newline c ≡ false) (strip_newlines s)
unfolding strip_newlines
strip_newlines_plain [] = tt
strip_newlines_plain (c ∷ s) = (ground arith, strip_newlines_plain s)

-- A line of output, whatever the text, is one line: no line end but the one behind it, which the
-- 512 bytes of an IRC line include.
pub output_line_one :
    (text : Bytes)
    → (line : Bytes) × (output_line none text ≡ line ++ crlf)
      × All (λ c. is_newline c ≡ false) line
      × (length (output_line none text) ≤ irc_max_line)
unfolding output_line
output_line_one text =
    let line = strip_newlines (take 509 text) in
    (
      line,
      refl,
      strip_newlines_plain (take 509 text),
      omega (
        arith,
        length-append line crlf,
        length-strip_newlines (take 509 text),
        length-take 509 text,
      ),
    )

length-recoded :
    (line : Bytes) (o : Option Bytes) → length line ≤ 510 → length (recoded line o) ≤ 510
unfolding recoded
length-recoded line none h = h
length-recoded line (some conv) h = omega (arith, length-take 510 conv)

-- A converted line keeps the limit too.
pub length-output_line :
    (oconv : Option (Bytes → Option Bytes)) (text : Bytes)
    → length (output_line oconv text) ≤ irc_max_line
unfolding output_line
length-output_line none text = let (_, _, _, h) = output_line_one text in h
length-output_line (some conv) text =
    let line = strip_newlines (take 509 text) in
    omega (
      arith,
      length-append (recoded line (conv line)) crlf,
      length-strip_newlines (take 509 text),
      length-take 509 text,
      length-recoded line (conv line),
    )

abbrev pub is_some : Option Bytes → Bool
is_some none = false
is_some (some s) = true

-- There is a write event exactly as long as something is queued.
abbrev pub IsWatched : Out → Type 0
IsWatched o = o.watching ≡ is_some o.sendbuffer

-- What a result of `write` took from the queue.
abbrev pub taken : Option Bytes → Sent → Bytes
taken (some s) (wrote n) = take n s
taken _ _ = []

-- What `irc_vawrite` puts in the queue.
abbrev pub queued : Option (Bytes → Option Bytes) → Out → Bytes → Bytes
queued oconv o text = if o.shutdown then [] else output_line oconv text

-- The things that happen to the queue of a client that is not aborted or freed, with the bytes
-- queued and the bytes sent. The event loop keeps the event that a write event returned `true` for.
pub data Run : Out → Bytes → Bytes → Out → Type 0 where
  start : (o : Out) → Run o [] [] o
  queue :
      {o p : Out} {inp out : Bytes} (oconv : Option (Bytes → Option Bytes)) (text : Bytes)
      → Run o inp out p
      → Run o (inp ++ queued oconv p text) out (vawrite oconv p text)
  send :
      {o p : Out} {inp out : Bytes} (r : Sent)
      → Run o inp out p
      → Run o inp (out ++ taken p.sendbuffer r) (flush p r)
  event :
      {o p : Out} {inp out : Bytes} (p' : Out) (keep : Bool) (r : Sent)
      → Run o inp out p
      → client_write p r ≡ returns keep p'
      → Run o inp (out ++ taken p.sendbuffer r) p'

vawrite-IsWatched :
    (oconv : Option (Bytes → Option Bytes)) (o : Out) (text : Bytes)
    → IsWatched o
    → IsWatched (vawrite oconv o text)
unfolding vawrite
vawrite-IsWatched oconv o text h = elim (Bool-cases o.shutdown) [
  | inl down ↦ (ground arith)
  | inr up ↦ (rw up)
]

flush_buffer-IsWatched :
    (o : Out) (q : Option Bytes) (r : Sent)
    → o.sendbuffer ≡ q
    → IsWatched o
    → IsWatched (flush_buffer o q r)
unfolding flush_buffer
flush_buffer-IsWatched o none r e h = h
flush_buffer-IsWatched o (some s) (wrote n) e h = (ground arith)
flush_buffer-IsWatched o (some s) again e h = h
flush_buffer-IsWatched o (some s) failed e h = h

write-IsWatched :
    (o o' : Out) (keep : Bool) (q : Option Bytes) (r : Sent)
    → o.sendbuffer ≡ q
    → IsWatched o
    → write_buffer o q r ≡ returns keep o'
    → IsWatched o' × (keep ≡ o'.watching)
unfolding write_buffer
write-IsWatched o o' keep none r e h k = ground arith
write-IsWatched o o' keep (some s) again e h k = ground arith
write-IsWatched o o' keep (some s) failed e h k = absurd (cc)
write-IsWatched o o' keep (some s) (wrote n) e h k = ground arith

returns_inj : {a b : Bool} {o o' : Out} → returns a o ≡ returns b o' → o ≡ o'
returns_inj e = (cc)

take_all : (n : ℕ) (s : Bytes) → n ≡ length s → take n s ++ [] ≡ s
take_all n s e = append-nil (take n s) ∙ take-eq_of_le n s (omega arith)

take_none : (n : ℕ) (s t : Bytes) → n ≡ 0 → take n s ++ t ≡ t
take_none n s t e = rw e

-- What a write takes from the queue is the front of it, and the rest stays.
flush_buffer-taken :
    (o : Out) (q : Option Bytes) (r : Sent)
    → o.sendbuffer ≡ q
    → taken q r ++ or_empty (flush_buffer o q r).sendbuffer ≡ or_empty q
unfolding flush_buffer
flush_buffer-taken o none (wrote n) e = ap or_empty e
flush_buffer-taken o none again e = ap or_empty e
flush_buffer-taken o none failed e = ap or_empty e
flush_buffer-taken o (some s) (wrote n) e =
    ground (arith, take_all n s, take_none n s s, take-append-drop n s)
flush_buffer-taken o (some s) again e = ap or_empty e
flush_buffer-taken o (some s) failed e = ap or_empty e

write-taken :
    (o o' : Out) (keep : Bool) (q : Option Bytes) (r : Sent)
    → o.sendbuffer ≡ q
    → write_buffer o q r ≡ returns keep o'
    → taken q r ++ or_empty o'.sendbuffer ≡ or_empty q
unfolding write_buffer
write-taken o o' keep none r e k =
    sym (ap (λ x. or_empty x.sendbuffer) (returns_inj k)) ∙ ap or_empty e
write-taken o o' keep (some s) again e k =
    sym (ap (λ x. or_empty x.sendbuffer) (returns_inj k)) ∙ ap or_empty e
write-taken o o' keep (some s) failed e k = absurd (cc)
write-taken o o' keep (some s) (wrote n) e k = ground (arith, take_all n s, take-append-drop n s)

vawrite-queued :
    (oconv : Option (Bytes → Option Bytes)) (o : Out) (text : Bytes)
    → or_empty (vawrite oconv o text).sendbuffer ≡ or_empty o.sendbuffer ++ queued oconv o text
unfolding vawrite
vawrite-queued oconv o text = elim (Bool-cases o.shutdown) [
  | inl down ↦ (rw (down, append-nil))
  | inr up ↦ (rw up)
]

flush-taken :
    (o : Out) (r : Sent)
    → taken o.sendbuffer r ++ or_empty (flush o r).sendbuffer ≡ or_empty o.sendbuffer
unfolding flush
flush-taken o r = flush_buffer-taken o o.sendbuffer r refl

flush-IsWatched : (o : Out) (r : Sent) → IsWatched o → IsWatched (flush o r)
unfolding flush
flush-IsWatched o r h = flush_buffer-IsWatched o o.sendbuffer r refl h

kept_front : (a b c d : Bytes) → a ++ b ≡ c → (d ++ a) ++ b ≡ d ++ c
kept_front a b c d e = append_assoc d a b ∙ ap (λ x. d ++ x) e

client_write-eq :
    (o o' : Out) (keep : Bool) (r : Sent)
    → client_write o r ≡ returns keep o'
    → write_buffer o o.sendbuffer r ≡ returns keep o'
unfolding client_write
client_write-eq o o' keep r k = k

-- From a client with nothing queued and no write event, whatever is queued, flushed and written in
-- whatever portions: the bytes sent, with the bytes still queued behind them, are the bytes queued,
-- in order, and there is a write event exactly as long as something is queued.
pub Run-order :
    {o p : Out} {inp out : Bytes}
    → Run o inp out p
    → o.sendbuffer ≡ none
    → o.watching ≡ false
    → (out ++ or_empty p.sendbuffer ≡ inp) × IsWatched p
Run-order (start o) e w = (ap or_empty e, w ∙ ap is_some (sym e))
Run-order (queue {p = p} {out = out} oconv text run) e w =
    let (order, watched) = Run-order run e w in
    (
      ap (λ x. out ++ x) (vawrite-queued oconv p text)
          ∙ sym (append_assoc out (or_empty p.sendbuffer) (queued oconv p text))
          ∙ ap (λ x. x ++ queued oconv p text) order,
      vawrite-IsWatched oconv p text watched,
    )
Run-order (send {p = p} {out = out} r run) e w =
    let (order, watched) = Run-order run e w in
    (kept_front _ _ _ out (flush-taken p r) ∙ order, flush-IsWatched p r watched)
Run-order (event {p = p} {out = out} p' keep r run k) e w =
    let (order, watched) = Run-order run e w in
    let step = client_write-eq p p' keep r k in
    let (watched', _) = write-IsWatched p p' keep p.sendbuffer r refl watched step in
    (kept_front _ _ _ out (write-taken p p' keep p.sendbuffer r refl step) ∙ order, watched')

-- A write event of a client whose event is there as long as something is queued asks to be kept
-- exactly if the client still has a write event.
pub client_write-keeps :
    (o o' : Out) (keep : Bool) (r : Sent)
    → IsWatched o
    → client_write o r ≡ returns keep o'
    → keep ≡ o'.watching
client_write-keeps o o' keep r h k =
    let (_, same) = write-IsWatched o o' keep o.sendbuffer r refl h (unfold client_write in k) in
    same
