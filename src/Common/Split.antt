-- ===== src/Common/Split.antt =====
-- The C library's strchr, as what is in front of a character and behind it.
use bitl_steam.Common.{
  ℕ, ◌≡◌, ◌≢◌, refl, false, Option, none, some, [], ◌∷◌, ◌++◌, Bytes, All, ◌==◌, ==_refl, arith,
  if◌then◌else◌,
}

-- `strchr(s, c)` for a character that is not zero: what is before it and behind it.
unfoldable pub in_front : ℕ → Option (Bytes × Bytes) → Option (Bytes × Bytes)
in_front x none = none
in_front x (some r) = some (x ∷ r.0, r.1)

unfoldable pub split_at : ℕ → Bytes → Option (Bytes × Bytes)
split_at c [] = none
split_at c (x ∷ s) = let rest = split_at c s in if x == c then some ([], s) else in_front x rest

-- A text without a character.
abbrev pub Lacks : ℕ → Bytes → Type 0
Lacks c = All (λ x. x ≢ c)

pub split_at-append :
    (c : ℕ) (s rest : Bytes) → Lacks c s → split_at c (s ++ c ∷ rest) ≡ some (s, rest)
unfolding split_at in_front
split_at-append c [] rest h = rw (==_refl c) refl
split_at-append c (x ∷ s) rest (ne, h) =
    let other : (x == c) ≡ false = (ground arith) in rw (other, split_at-append c s rest h) refl

pub split_at-none : (c : ℕ) (s : Bytes) → Lacks c s → split_at c s ≡ none
unfolding split_at in_front
split_at-none c [] h = refl
split_at-none c (x ∷ s) (ne, h) =
    let other : (x == c) ≡ false = (ground arith) in rw (other, split_at-none c s h) refl
