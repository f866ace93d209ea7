-- ===== src/Nick/Strip.antt =====
-- nick.c: `nick_strip` and `nick_ok`.
use mathlib.Core.List.{cons-ne-nil}
use bitl_steam.Common.{
  ℕ, zero, suc, ◌≤◌, ◌≡◌, ◌≢◌, ◌↔◌, refl, ap, ◌∙◌, true, false, [], ◌∷◌, ◌++◌, Bytes, arith, All,
  All-take, all, is_digit, if◌then◌else◌, Bool-cases, inl, inr, length, take, drop,
  take-append_length, length-take, take-eq_of_le,
}
use native.Mathlib.Numerals.{add-one}
use bitl_steam.Nick.Chars.{digit_allowed}
use bitl_steam.Nick.{max_nick_length, is_nick_char, first_is_digit, kept, cut, nick_strip, nick_ok}

-- The allowed characters of a text, in order.
abbrev pub allowed : Bytes → Bytes
allowed [] = []
allowed (c ∷ s) = if is_nick_char c then c ∷ allowed s else allowed s

-- A nick that may be used: not too long, of allowed characters, with no digit in front.
pub record IsClean (nick : Bytes) : Type 0 where
  pub short : length nick ≤ max_nick_length
  pub chars : All (λ c. is_nick_char c ≡ true) nick
  pub front : first_is_digit nick ≡ false

kept-allowed : (room : ℕ) (s : Bytes) → kept room s ≡ take room (allowed s)
unfolding kept
kept-allowed zero [] = refl
kept-allowed (suc room) [] = refl
kept-allowed zero (c ∷ s) = refl
kept-allowed (suc room) (c ∷ s) = elim (Bool-cases (is_nick_char c)) [
  | inl e ↦ rw e (ap (λ r. c ∷ r) (kept-allowed room s))
  | inr e ↦ rw e (kept-allowed (suc room) s)
]

take-take_comm : (m n : ℕ) (xs : Bytes) → take m (take n xs) ≡ take n (take m xs)
take-take_comm zero zero xs = refl
take-take_comm zero (suc n) xs = refl
take-take_comm (suc m) zero xs = refl
take-take_comm (suc m) (suc n) [] = refl
take-take_comm (suc m) (suc n) (x ∷ xs) = ap (λ r. x ∷ r) (take-take_comm m n xs)

-- The text that `nick_strip` is to leave: the first 24 allowed characters, or an underscore and the
-- first 22 if there is a digit in front.
abbrev pub stripped : Bytes → Bytes
stripped k = if first_is_digit k then b'_' ∷ take 22 k else k

allowed-All : (s : Bytes) → All (λ c. is_nick_char c ≡ true) (allowed s)
allowed-All [] = tt
allowed-All (c ∷ s) = elim (Bool-cases (is_nick_char c)) [
  | inl e ↦ rw e (e, allowed-All s)
  | inr e ↦ rw e (allowed-All s)
]

-- A buffer that starts with no allowed character starts with no digit.
first-allowed : (s : Bytes) → kept max_nick_length s ≡ [] → first_is_digit s ≡ false
unfolding kept
first-allowed [] h = refl
first-allowed (c ∷ s) h = ground (arith, digit_allowed c)

take_under :
    (c : ℕ) (k rest : Bytes) → take (suc (length k)) (take 22 (c ∷ (k ++ rest))) ≡ take 22 (c ∷ k)
take_under c k rest =
    take-take_comm (suc (length k)) 22 (c ∷ (k ++ rest))
    ∙ ap (λ r. take 22 (c ∷ r)) (take-append_length k rest)

cut-stripped :
    (k rest : Bytes)
    → (k ≡ [] → first_is_digit rest ≡ false)
    → cut (length k) (k ++ rest) ≡ stripped k
unfolding cut
cut-stripped [] rest h = rw (h refl) refl
cut-stripped (c ∷ k) rest h = elim (Bool-cases (is_digit c)) [
  | inl e ↦ rw (e, add-one (suc (length k))) (ap (λ r. b'_' ∷ r) (take_under c k rest))
  | inr e ↦ rw e (take-append_length (c ∷ k) rest)
]

-- `nick_strip`, which works in place over the old text, gives the first 24 allowed characters; if
-- those start with a digit, an underscore and the first 22 of them.
pub nick_strip_lem : (s : Bytes) → nick_strip s ≡ stripped (take max_nick_length (allowed s))
unfolding nick_strip
nick_strip_lem s =
    cut-stripped (kept max_nick_length s) (drop (length (kept max_nick_length s)) s)
      (λ e. rw e (first-allowed s e))
    ∙ ap stripped (kept-allowed max_nick_length s)

stripped-IsClean :
    (k : Bytes)
    → length k ≤ max_nick_length
    → All (λ c. is_nick_char c ≡ true) k
    → IsClean (stripped k)
stripped-IsClean k short chars = elim (Bool-cases (first_is_digit k)) [
  | inl e ↦ rw e (record {
    short = omega (arith, length-take 22 k);
    chars = (unfold is_nick_char in refl, All-take _ 22 k chars);
    front = refl;
  })
  | inr e ↦ rw e (record { short = short; chars = chars; front = e })
]

-- Whatever the text, `nick_strip` leaves at most 24 allowed characters, with no digit in front.
pub nick_strip-IsClean : (s : Bytes) → IsClean (nick_strip s)
nick_strip-IsClean s = rw (nick_strip_lem s) (
    stripped-IsClean _ (omega (arith, length-take max_nick_length (allowed s)))
      (All-take _ max_nick_length (allowed s) (allowed-All s)))

all_iff : (s : Bytes) → (all is_nick_char s ≡ true) ↔ All (λ c. is_nick_char c ≡ true) s
all_iff [] = (λ h. tt, λ h. refl)
all_iff (c ∷ s) =
    let (to, from) = all_iff s in
    (λ h. (ground arith, to (ground arith)), λ h. ground (arith, h.0, from h.1))

-- `nick_ok` accepts exactly the clean nicks that are not empty.
pub nick_ok_iff : (nick : Bytes) → (nick_ok nick ≡ true) ↔ (IsClean nick × (nick ≢ []))
unfolding nick_ok
nick_ok_iff [] = (λ h. cc, λ h. absurd (h.1 refl))
nick_ok_iff (c ∷ s) = (
  λ h. (
    record {
      short = ground arith;
      chars = (all_iff (c ∷ s)).0 (ground arith);
      front = ground arith;
    },
    cons-ne-nil c s,
  ),
  λ v. ground (arith, v.0.short, v.0.front, (all_iff (c ∷ s)).1 v.0.chars),
)

allowed-eq : (s : Bytes) → All (λ c. is_nick_char c ≡ true) s → allowed s ≡ s
allowed-eq [] h = refl
allowed-eq (c ∷ s) (hc, h) = rw hc (ap (λ r. c ∷ r) (allowed-eq s h))

-- A nick that is accepted is not changed by `nick_strip`.
pub nick_strip-ok : (nick : Bytes) → nick_ok nick ≡ true → nick_strip nick ≡ nick
nick_strip-ok nick h =
    let (clean, _) = (nick_ok_iff nick).0 h in
    rw
      (
        nick_strip_lem nick,
        allowed-eq nick clean.chars,
        take-eq_of_le max_nick_length nick clean.short,
      )
      (rw clean.front refl)
