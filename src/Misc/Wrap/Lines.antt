-- ===== src/Misc/Wrap/Lines.antt =====
-- lib/misc.c: the lines and the words of a wrapped text.
use bitl_steam.Common.{
  ℕ, zero, suc, ◌+◌, ◌<◌, ◌≤◌, ◌≡◌, refl, ap, sym, ◌∙◌, Bool, true, false, ◌||◌, some, [], ◌∷◌,
  ◌++◌, Bytes, length, length-take, length-drop, take-append-drop, get_or, take, drop, ltb, ◌==◌,
  if◌then◌else◌, arith, Bool-cases, inl, inr,
}
use bitl_steam.Misc.Wrap.{back, is_break, cut_at_break, cut, after, wrap, word_wrap}

-- Each line has at most `m` characters, the first one at most `room`.
unfoldable pub fits : ℕ → ℕ → Bytes → Bool
fits m room [] = true
fits m zero (c ∷ s) = if c == 10 then fits m m s else false
fits m (suc room) (c ∷ s) =
    let more = fits m room s in let next = fits m m s in if c == 10 then next else more

-- The characters that are neither spaces nor line ends.
unfoldable pub solid : Bytes → Bytes
solid [] = []
solid (c ∷ s) = let rest = solid s in if c == b' ' || c == 10 then rest else c ∷ rest

solid-append : (a b : Bytes) → solid (a ++ b) ≡ solid a ++ solid b
unfolding solid
solid-append [] b = refl
solid-append (c ∷ a) b = (let rest = solid-append a b in ground arith)

fits-line :
    (m room : ℕ) (xs rest : Bytes)
    → length xs ≤ room
    → room ≤ m
    → fits m room (xs ++ 10 ∷ rest) ≡ fits m m rest
unfolding fits
fits-line m zero [] rest h k = ground arith
fits-line m (suc room) [] rest h k = ground arith
fits-line m zero (c ∷ xs) rest h k = absurd (omega arith)
fits-line m (suc room) (c ∷ xs) rest h k =
    let more = fits-line m room xs rest (omega arith) (omega arith) in
    let next = fits-line m m xs rest (omega arith) (omega arith) in ground arith

fits-short : (m room : ℕ) (s : Bytes) → length s ≤ room → room ≤ m → fits m room s ≡ true
unfolding fits
fits-short m room [] h k = refl
fits-short m zero (c ∷ s) h k = absurd (omega arith)
fits-short m (suc room) (c ∷ s) h k =
    let more = fits-short m room s (omega arith) (omega arith) in
    let next = fits-short m m s (omega arith) (omega arith) in ground arith

split_at : (i : ℕ) (s : Bytes) → i < length s → take i s ++ get_or s i 0 ∷ drop (suc i) s ≡ s
split_at i [] h = absurd (omega arith)
split_at zero (c ∷ s) h = refl
split_at (suc i) (c ∷ s) h = ap (λ r. c ∷ r) (split_at i s (omega arith))

back_le : (p : ℕ → Bool) (n : ℕ) (s : Bytes) → back p n s ≤ n
unfolding back
back_le p zero s = omega arith
back_le p (suc n) s = (let rest = back_le p n s in ground arith)

back_found :
    (p : ℕ → Bool) (n i : ℕ) (s : Bytes) → back p n s ≡ suc i → p (get_or s (suc i) 0) ≡ true
unfolding back
back_found p zero i s e = absurd (omega arith)
back_found p (suc n) i s e = (let rest = back_found p n i s in ground arith)

-- What a cut is to be: the line has no more than one character too many, the text moves on, and
-- only a space or a line end is lost between the two.
abbrev Cuts : ℕ → Bytes → Bytes × ℕ → Type 0
Cuts line_len msg r =
    (length r.0 ≤ line_len + 1)
    × (0 < r.1)
    × (r.1 ≤ length msg)
    × (solid (r.0 ++ drop r.1 msg) ≡ solid msg)

solid-gap :
    (xs rest : Bytes) (c : ℕ)
    → (c == b' ' || c == 10) ≡ true
    → solid (xs ++ rest) ≡ solid (xs ++ c ∷ rest)
unfolding solid
solid-gap [] rest c h = rw h
solid-gap (x ∷ xs) rest c h = (let more = solid-gap xs rest c h in ground arith)

gap-Cuts :
    (line_len i : ℕ) (msg : Bytes)
    → i ≤ line_len
    → i < length msg
    → (get_or msg i 0 == b' ' || get_or msg i 0 == 10) ≡ true
    → Cuts line_len msg (take i msg, suc i)
gap-Cuts line_len i msg le lt h = (
  omega (arith, length-take i msg),
  omega arith,
  omega arith,
  solid-gap (take i msg) (drop (suc i) msg) (get_or msg i 0) h ∙ ap solid (split_at i msg lt),
)

take-Cuts :
    (line_len i : ℕ) (msg : Bytes)
    → 0 < i
    → i ≤ line_len + 1
    → i ≤ length msg
    → Cuts line_len msg (take i msg, i)
take-Cuts line_len i msg pos le lt =
    (omega (arith, length-take i msg), pos, lt, ap solid (take-append-drop i msg))

cut_at_break-Cuts :
    (line_len i : ℕ) (msg : Bytes)
    → 0 < line_len
    → line_len < length msg
    → back is_break line_len msg ≡ i
    → Cuts line_len msg (cut_at_break line_len i msg)
unfolding cut_at_break
cut_at_break-Cuts line_len zero msg pos lt e =
    take-Cuts line_len line_len msg pos (omega arith) (omega arith)
cut_at_break-Cuts line_len (suc i) msg pos lt e =
    let found = back_found is_break line_len i msg e in
    let le = back_le is_break line_len msg in
    elim (Bool-cases (get_or msg (suc i) 0 == b'-')) [
      | inl dash ↦
          (rw dash (take-Cuts line_len (suc (suc i)) msg (omega arith) (omega arith) (omega arith)))
      | inr space ↦
          (rw space (gap-Cuts line_len (suc i) msg (omega arith) (omega arith) (ground arith)))
    ]

cut-Cuts :
    (line_len : ℕ) (msg : Bytes)
    → 0 < line_len
    → line_len < length msg
    → Cuts line_len msg (cut line_len msg)
unfolding cut
cut-Cuts line_len msg pos lt =
    let i = back (λ c. c == 10) line_len msg in
    let le = back_le (λ c. c == 10) line_len msg in
    elim (Bool-cases (get_or msg i 0 == 10)) [
      | inl newline ↦ (rw newline (gap-Cuts line_len i msg le (omega arith) (ground arith)))
      | inr other ↦
          (rw other (cut_at_break-Cuts line_len (back is_break line_len msg) msg pos lt refl))
    ]

-- What wrapping is to give.
pub record IsWrapped (msg : Bytes) (line_len : ℕ) (out : Bytes) : Type 0 where
  pub short : fits (line_len + 1) (line_len + 1) out ≡ true
  pub same_text : solid out ≡ solid msg

after-IsWrapped :
    (line_len : ℕ) (msg : Bytes) (r : Bytes × ℕ) (out : Bytes)
    → Cuts line_len msg r
    → IsWrapped (drop r.1 msg) line_len out
    → IsWrapped msg line_len (r.0 ++ 10 ∷ out)
after-IsWrapped line_len msg r out (le, pos, lt, same) w = record {
  short = fits-line (line_len + 1) (line_len + 1) r.0 out le (omega arith) ∙ w.short;
  same_text =
      sym (solid-gap r.0 out 10 refl)
      ∙ solid-append r.0 out
      ∙ ap (λ x. solid r.0 ++ x) w.same_text
      ∙ sym (solid-append r.0 (drop r.1 msg))
      ∙ same;
}

wrap-IsWrapped :
    (f line_len : ℕ) (msg : Bytes)
    → length msg < f
    → 0 < line_len
    → (out : Bytes) × (wrap f line_len msg ≡ some out) × IsWrapped msg line_len out
unfolding wrap after
wrap-IsWrapped zero line_len msg h pos = absurd (omega arith)
wrap-IsWrapped (suc f) line_len msg h pos = elim (Bool-cases (ltb line_len (length msg))) [
  | inl long ↦
      let cuts = cut-Cuts line_len msg pos (ground arith) in
      let (le, moves, lt, same) = cuts in
      let (out, e, w) =
        wrap-IsWrapped f line_len (drop (cut line_len msg).1 msg)
          (omega (arith, length-drop (cut line_len msg).1 msg)) pos in
      (
        (cut line_len msg).0 ++ 10 ∷ out,
        (rw (long, e)),
        after-IsWrapped line_len msg (cut line_len msg) out cuts w,
      )
  | inr short ↦ (
    msg,
    (rw short),
    record {
      short = fits-short (line_len + 1) (line_len + 1) msg (ground arith) (omega arith);
      same_text = refl;
    },
  )
]

-- With room for a character in a line, wrapping ends. No line is longer than one character more than
-- the room asked for, which a hyphen at the end may take, and all but spaces and line ends is kept
-- in order.
pub word_wrap-IsWrapped :
    (msg : Bytes) (line_len : ℕ)
    → 0 < line_len
    → (out : Bytes) × (word_wrap msg line_len ≡ some out) × IsWrapped msg line_len out
unfolding word_wrap
word_wrap-IsWrapped msg line_len pos =
    wrap-IsWrapped (suc (length msg)) line_len msg (omega arith) pos
