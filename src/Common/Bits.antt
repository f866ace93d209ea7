-- ===== src/Common/Bits.antt =====
-- Facts about bit operations on small numbers, by a run over all values.
use Prim.Native.Nat.{ℕ, zero, suc, ◌<◌}
use mathlib.Core.Path.{◌≡◌}
use mathlib.Core.Bool.{Bool, true, false}
use native.Mathlib.Omega.{arith}
use bitl_steam.Common.Tests.{◌==◌, ==_iff, if◌then◌else◌}

-- A test passes at the numbers below a bound, tried from the largest down.
unfoldable pub passes : (ℕ → Bool) → ℕ → Bool
passes test zero = true
passes test (suc top) = let below = passes test top in if test top then below else false

pub passes_lem : (test : ℕ → Bool) {top i : ℕ} → passes test top ≡ true → i < top → test i ≡ true
unfolding passes
passes_lem test {top = zero} run small = absurd (omega arith)
passes_lem test {top = suc top} {i = i} run small =
    let earlier = passes_lem test {top = top} {i = i} in ground arith

-- Two functions agree below a bound if a run says so.
pub agree_below :
    (n : ℕ) (f g : ℕ → ℕ) → passes (λ x. f x == g x) n ≡ true → (x : ℕ) → x < n → f x ≡ g x
agree_below n f g run x small = (==_iff (f x) (g x)).0 (passes_lem (λ x. f x == g x) run small)

unfoldable pub passes_pairs : (ℕ → ℕ → Bool) → ℕ → ℕ → Bool
unfolding passes
passes_pairs test n m = passes (λ x. passes (test x) m) n

-- The same for functions of two numbers.
pub agree_pairs :
    (n m : ℕ) (f g : ℕ → ℕ → ℕ)
    → passes_pairs (λ x y. f x y == g x y) n m ≡ true
    → (x y : ℕ) → x < n
    → y < m
    → f x y ≡ g x y
unfolding passes_pairs
agree_pairs n m f g run x y small_x small_y =
    let row = passes_lem (λ x. passes (λ y. f x y == g x y) m) run small_x in
    (==_iff (f x y) (g x y)).0 (passes_lem (λ y. f x y == g x y) row small_y)
