-- ===== src/Common/Xor.antt =====
-- Exclusive or, of numbers of any size.
use Prim.Native.Nat.{
  ℕ, zero, suc, ◌+◌, ◌*◌, ◌/◌, ◌%◌, ◌≤◌, ◌<◌, bit_xor, digits, differ, bit_xor-bitwise,
}
use mathlib.Core.Path.{◌≡◌, refl, ap, sym, ◌∙◌}
use native.Mathlib.Omega.{arith}

-- The digits of the exclusive or, with a count of digits to go.
abbrev xor_digits : ℕ → ℕ → ℕ → ℕ
xor_digits n a b = digits (λ b. b) differ n a b

differ_bits :
    (p q : ℕ)
    → p < 2
    → q < 2
    → (differ p q < 2) × (differ (differ p q) q ≡ p) × (differ q q ≡ 0) × (differ p q ≡ 0 → p ≡ q)
differ_bits zero zero hp hq = (omega arith, refl, refl, λ h. refl)
differ_bits zero (suc zero) hp hq = (omega arith, refl, refl, λ h. omega arith)
differ_bits (suc zero) zero hp hq = (omega arith, refl, refl, λ h. omega arith)
differ_bits (suc zero) (suc zero) hp hq = (omega arith, refl, refl, λ h. refl)
differ_bits (suc (suc p)) q hp hq = absurd (omega arith)
differ_bits p (suc (suc q)) hp hq = absurd (omega arith)

xor_digits_self : (m b : ℕ) → b ≤ m → xor_digits m b b ≡ 0
xor_digits_self zero zero h = refl
xor_digits_self zero (suc b) h = absurd (omega arith)
xor_digits_self (suc m) zero h = refl
xor_digits_self (suc m) (suc b) h =
    let (_, _, none, _) = differ_bits (suc b % 2) (suc b % 2) (omega arith) (omega arith) in
    omega (arith, xor_digits_self m (suc b / 2) (omega arith))

-- The last step: a number with the digits `q` and `r` of the exclusive or.
xor_digits_undo :
    (m v a b q : ℕ)
    → v ≡ q * 2 + differ (a % 2) (b % 2)
    → v ≤ m
    → ((m' : ℕ) → q ≤ m' → xor_digits m' q (b / 2) ≡ a / 2)
    → xor_digits m v b ≡ a
xor_digits_undo zero zero a b q e h undo =
    let (_, _, _, same) = differ_bits (a % 2) (b % 2) (omega arith) (omega arith) in
    let none : q ≡ 0 = omega arith in
    let half : b / 2 ≡ a / 2 = sym (ap (λ x. xor_digits 0 x (b / 2)) none) ∙ undo 0 (omega arith) in
    omega (arith, half, same (omega arith))
xor_digits_undo zero (suc v) a b q e h undo = absurd (omega arith)
xor_digits_undo (suc m) zero a b q e h undo =
    let (_, _, _, same) = differ_bits (a % 2) (b % 2) (omega arith) (omega arith) in
    let none : q ≡ 0 = omega arith in
    let half : b / 2 ≡ a / 2 = sym (ap (λ x. xor_digits 0 x (b / 2)) none) ∙ undo 0 (omega arith) in
    omega (arith, half, same (omega arith))
xor_digits_undo (suc m) (suc v) a b q e h undo =
    let (bit, back, _, _) = differ_bits (a % 2) (b % 2) (omega arith) (omega arith) in
    let upper : suc v / 2 ≡ q = omega arith in
    let lower : suc v % 2 ≡ differ (a % 2) (b % 2) = omega arith in
    rw (upper, lower, back) (omega (arith, undo m (omega arith)))

xor_digits_twice :
    (n m a b : ℕ) → a ≤ n → xor_digits n a b ≤ m → xor_digits m (xor_digits n a b) b ≡ a
xor_digits_twice zero m zero b h k = xor_digits_self m b k
xor_digits_twice zero m (suc a) b h k = absurd (omega arith)
xor_digits_twice (suc n) m zero b h k = xor_digits_self m b k
xor_digits_twice (suc n) m (suc a) b h k =
    xor_digits_undo m (xor_digits (suc n) (suc a) b) (suc a) b (xor_digits n (suc a / 2) (b / 2))
      refl k (λ m' l. xor_digits_twice n m' (suc a / 2) (b / 2) (omega arith) l)

-- The same number twice leaves what was there.
pub bit_xor_twice : (a b : ℕ) → bit_xor (bit_xor a b) b ≡ a
bit_xor_twice a b =
    bit_xor-bitwise (bit_xor a b) b
    ∙ (rw (bit_xor-bitwise a b)
        (xor_digits_twice a (xor_digits a a b) a b (omega arith) (omega arith)))
