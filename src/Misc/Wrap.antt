-- ===== src/Misc/Wrap.antt =====
-- lib/misc.c: `word_wrap`.
pub mod Lines
mod Examples
use bitl_steam.Common.{
  ℕ, zero, suc, ◌+◌, Bool, ◌||◌, Option, none, some, [], ◌∷◌, ◌++◌, Bytes, length, get_or, take,
  drop, ltb, ◌==◌, if◌then◌else◌,
}

-- `for (i = n; i > 0 && !p(msg[i]); i--)`, and the `i` it ends with.
unfoldable pub back : (ℕ → Bool) → ℕ → Bytes → ℕ
back p zero msg = zero
back p (suc i) msg = let rest = back p i msg in if p (get_or msg (suc i) 0) then suc i else rest

abbrev pub is_break : ℕ → Bool
is_break c = c == b'-' || c == b' '

-- What a round puts in front of the line end, and how far `msg` moves.
unfoldable pub cut_at_break : ℕ → ℕ → Bytes → Bytes × ℕ
cut_at_break line_len zero msg = (take line_len msg, line_len)
cut_at_break line_len (suc i) msg =
    if get_or msg (suc i) 0 == b'-'
    then (take (suc (suc i)) msg, suc (suc i))
    else (take (suc i) msg, suc (suc i))

unfoldable pub cut : ℕ → Bytes → Bytes × ℕ
cut line_len msg =
    let i = back (λ c. c == 10) line_len msg in
    if get_or msg i 0 == 10
    then (take i msg, suc i)
    else cut_at_break line_len (back is_break line_len msg) msg

unfoldable pub after : Bytes → Option Bytes → Option Bytes
after line none = none
after line (some out) = some (line ++ 10 ∷ out)

-- The loop on fuel; `none` means that the fuel did not suffice.
unfoldable pub wrap : ℕ → ℕ → Bytes → Option Bytes
wrap zero line_len msg = none
wrap (suc f) line_len msg =
    let (line, size) = cut line_len msg in
    let rest = after line (wrap f line_len (drop size msg)) in
    if ltb line_len (length msg) then rest else some msg

-- Each round takes a character off, so the length is enough fuel.
unfoldable pub word_wrap : Bytes → ℕ → Option Bytes
word_wrap msg line_len = wrap (suc (length msg)) line_len msg
