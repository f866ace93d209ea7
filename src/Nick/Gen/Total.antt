-- ===== src/Nick/Gen/Total.antt =====
-- nick.c: `nick_gen` and its fuel.
use mathlib.Core.List.{cons-ne-nil}
use bitl_steam.Common.{
  lt→ltb, ℕ, zero, suc, ◌+◌, ◌-◌, ◌*◌, ◌^◌, ◌<◌, ◌≤◌, ◌≡◌, ◌≢◌, refl, Bool, true, false, not, ◌||◌,
  Option, none, some, [], ◌∷◌, ◌++◌, Bytes, arith, is_digit, length, drop, ltb, ◌==◌, if◌then◌else◌,
  Bool-cases, inl, inr,
}
use bitl_steam.Common.Outcome.{Outcome, done, fault}
use bitl_steam.Glib.{Glib}
use bitl_steam.Nick.{max_nick_length}
use bitl_steam.Nick.Gen.{
  resume, Buddy, Directive, read_number, keyword, directive, append_part, converted, finish,
  gen_loop, nick_gen,
}

-- Each number in the format is within `int`.
abbrev pub NumbersFit : Bytes → Type 0
NumbersFit [] = Unit
NumbersFit (c ∷ s) = ((read_number 0 (c ∷ s)).0 < 2 ^ 31) × NumbersFit s

abbrev pub FormatFits : Option Bytes → Type 0
FormatFits none = Unit
FormatFits (some s) = NumbersFit s

-- A rest of the format that is at most this long.
abbrev IsRest : ℕ → Bytes → Type 0
IsRest m s = NumbersFit s × (length s ≤ m)

read_number-IsRest : (n : ℕ) (s : Bytes) (m : ℕ) → IsRest m s → IsRest m (read_number n s).1
unfolding read_number
read_number-IsRest n [] m h = h
read_number-IsRest n (c ∷ s) m (h, l) = elim (Bool-cases (is_digit c)) [
  | inl e ↦ rw e (read_number-IsRest (n * 10 + (c - b'0')) s m (h.1, omega arith))
  | inr e ↦ rw e (h, l)
]

drop-IsRest : (k : ℕ) (s : Bytes) (m : ℕ) → IsRest m s → IsRest m (drop k s)
drop-IsRest zero s m h = h
drop-IsRest (suc k) [] m h = h
drop-IsRest (suc k) (c ∷ s) m (h, l) = drop-IsRest k s m (h.1, omega arith)

-- The directive was read, and what it leaves of the format is shorter.
abbrev Leaves : ℕ → Outcome (Option Directive) → Type 0
Leaves m fault = ⊥
Leaves m (done none) = Unit
Leaves m (done (some d)) = IsRest m d.rest

Leaves-if :
    (m : ℕ) (b : Bool) (x y : Outcome (Option Directive))
    → (b ≡ true → Leaves m x)
    → (b ≡ false → Leaves m y)
    → Leaves m (if b then x else y)
Leaves-if m true x y hx hy = hx refl
Leaves-if m false x y hx hy = hy refl

-- The digits at the front of a format leave a shorter one.
number-IsRest :
    (c : ℕ) (s : Bytes)
    → is_digit c ≡ true
    → NumbersFit s
    → IsRest (length s) (read_number 0 (c ∷ s)).1
unfolding read_number
number-IsRest c s e h =
    rw e (read_number-IsRest (0 * 10 + (c - b'0')) s (length s) (h, omega arith))

module _ (g : Glib) (bu : Buddy) where
  keyword-Leaves :
      (fmt : Bytes) (chop len m : ℕ) → IsRest m fmt → Leaves m (done (keyword g bu fmt chop len))
  unfolding keyword
  keyword-Leaves fmt chop len m h = ground (
    arith,
    drop-IsRest 4 fmt m h,
    drop-IsRest 6 fmt m h,
    drop-IsRest 9 fmt m h,
    drop-IsRest 10 fmt m h,
    drop-IsRest 5 fmt m h,
    drop-IsRest 7 fmt m h,
  )

  directive_total :
      (f : ℕ) (fmt : Bytes) (chop len m : ℕ)
      → length fmt < f
      → IsRest m fmt
      → Leaves m (directive g f bu fmt chop len)
  unfolding directive
  directive_total zero fmt chop len m l h = absurd (omega arith)
  directive_total (suc f) [] chop len m l h = h
  directive_total (suc f) (c ∷ []) chop len m l h =
      let next = directive_total f [] chop (c - b'0') m (omega arith) (tt, omega arith) in
      Leaves-if m (c == b'-') _ _ (λ _. tt)
        (λ _. Leaves-if m (is_digit c) _ _ (λ _. next) (λ _. keyword-Leaves (c ∷ []) chop len m h))
  directive_total (suc f) (c ∷ d ∷ s) chop len m l (h, lm) =
      let (n, r) = read_number 0 (c ∷ d ∷ s) in
      let chopped = directive_total f s d len m (omega arith) (h.1.1, omega arith) in
      let counted = λ (k : IsRest (suc (length s)) r).
        directive_total f r chop n m (omega arith) (k.0, omega arith) in
      Leaves-if m (c == b'-') _ _ (λ _. chopped)
        (λ _.
          Leaves-if m (is_digit c) _ _
            (λ e. rw (lt→ltb n (2 ^ 31) h.0) (counted (number-IsRest c (d ∷ s) e h.1)))
            (λ _. keyword-Leaves (c ∷ d ∷ s) chop len m (h, lm)))

-- The loop returned, and what it returns, if not null, is not empty.
abbrev pub Ends : Outcome (Option Bytes) → Type 0
Ends fault = ⊥
Ends (done none) = Unit
Ends (done (some v)) = v ≢ []

finish-Ends : (ret : Bytes) (ok : Bool) → Ends (done (finish ret ok))
finish-Ends [] ok = tt
finish-Ends (c ∷ ret) ok = ground (arith, cons-ne-nil c ret)

Ends-if : (b : Bool) (x y : Outcome (Option Bytes)) → Ends x → Ends y → Ends (if b then x else y)
Ends-if true x y hx hy = hx
Ends-if false x y hx hy = hy

resume-Ends :
    (m : ℕ) (o : Outcome (Option Directive)) (k : Directive → Outcome (Option Bytes))
    → Leaves m o
    → ((d : Directive) → IsRest m d.rest → Ends (k d))
    → Ends (resume o k)
unfolding resume
resume-Ends m fault k h next = h
resume-Ends m (done none) k h next = tt
resume-Ends m (done (some d)) k h next = next d h

module _ (g : Glib) (convert : Bytes → Option Bytes) (bu : Buddy) where
  gen_loop_total :
      (f : ℕ) (fmt ret : Bytes) (ok : Bool)
      → length fmt < f
      → NumbersFit fmt
      → Ends (gen_loop g convert f bu fmt ret ok)
  unfolding gen_loop
  gen_loop_total zero fmt ret ok l h = absurd (omega arith)
  gen_loop_total (suc f) [] ret ok l h = finish-Ends ret ok
  gen_loop_total (suc f) (c ∷ fmt) ret ok l h =
      let k = λ (d : Directive).
        gen_loop g convert f bu d.rest (append_part ret (converted g convert d.part) d.chop d.len)
          (ok || d.unique) in
      let formatted = directive g (suc f) bu fmt 0 max_nick_length in
      let plain = gen_loop g convert f bu fmt (ret ++ c ∷ []) ok in
      Ends-if (not (ltb (length ret) max_nick_length)) (done (finish ret ok))
        (if c == b'%' then resume formatted k else plain) (finish-Ends ret ok)
        (Ends-if (c == b'%') (resume formatted k) plain
          (resume-Ends (length fmt) formatted k
            (directive_total g bu (suc f) fmt 0 max_nick_length (length fmt) (omega arith)
              (h.1, omega arith))
            (λ d r. gen_loop_total f d.rest _ _ (omega arith) r.0))
          (gen_loop_total f fmt (ret ++ c ∷ []) ok (omega arith) h.1))

  -- Whatever the format, if each number in it fits an `int`, `nick_gen` ends without undefined
  -- behaviour, and what it returns, if not NULL, is not empty.
  pub nick_gen_total : (fmt : Option Bytes) → FormatFits fmt → Ends (nick_gen g convert bu fmt)
  unfolding nick_gen
  nick_gen_total none h = tt
  nick_gen_total (some s) h = gen_loop_total (suc (length s)) s [] false (omega arith) h
