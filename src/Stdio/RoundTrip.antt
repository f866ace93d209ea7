-- ===== src/Stdio/RoundTrip.antt =====
-- Scanning what was printed.
use bitl_steam.Common.{
  ℕ, zero, suc, ◌+◌, ◌/◌, ◌%◌, ◌^◌, ◌<◌, ◌≤◌, ◌≡◌, refl, true, false, some, [], ◌∷◌, Bytes, arith,
  length,
}
use bitl_steam.Common.Outcome.{done}
use bitl_steam.Stdio.{
  ℤ, pos, negsuc, print_digits, print_nat, print_int, read_digits, starts_number, convert, scan_int,
  IsInt,
}
use native.Mathlib.Nat.{pow-suc}

read-print_digits :
    (f n : ℕ) (out : Bytes) → n < f → read_digits 0 (print_digits f n out) ≡ read_digits n out
unfolding print_digits read_digits
read-print_digits zero n out h = absurd (omega arith)
read-print_digits (suc f) n out h =
    ground (arith, read-print_digits f (n / 10) ((b'0' + n % 10) ∷ out))

starts_number-print : (f n : ℕ) (out : Bytes) → n < f → starts_number (print_digits f n out) ≡ true
unfolding print_digits starts_number
starts_number-print zero n out h = absurd (omega arith)
starts_number-print (suc f) n out h =
    ground (arith, starts_number-print f (n / 10) ((b'0' + n % 10) ∷ out))

scan_of_digit : (s : Bytes) → starts_number s ≡ true → scan_int s ≡ convert false s
unfolding scan_int starts_number
scan_of_digit [] h = cc
scan_of_digit (c ∷ s) h = ground arith

-- A number below 10^k takes k digits.
length-print_digits :
    (f k n : ℕ) (out : Bytes)
    → n < f
    → n < 10 ^ suc k
    → length (print_digits f n out) ≤ suc k + length out
unfolding print_digits
length-print_digits zero k n out h p = absurd (omega arith)
length-print_digits (suc f) zero n out h p = ground arith
length-print_digits (suc f) (suc k) n out h p =
    ground (arith, length-print_digits f k (n / 10) ((b'0' + n % 10) ∷ out), pow-suc 10 (suc k))

scan-minus : (s : Bytes) → scan_int (b'-' ∷ s) ≡ convert true s
unfolding scan_int
scan-minus s = refl

read-print_nat : (n : ℕ) → read_digits 0 (print_nat n) ≡ n
unfolding print_nat
read-print_nat n = rw (read-print_digits (suc n) n [] (omega arith)) (unfold read_digits in refl)

starts_number-print_nat : (n : ℕ) → starts_number (print_nat n) ≡ true
unfolding print_nat
starts_number-print_nat n = starts_number-print (suc n) n [] (omega arith)

-- An `int` is read back from its decimal print.
pub scan-print : (z : ℤ) → IsInt z → scan_int (print_int z) ≡ some (done z)
unfolding print_int
scan-print (pos n) h =
    rw (scan_of_digit _ (starts_number-print_nat n))
      (unfold convert in rw (starts_number-print_nat n, read-print_nat n) (ground arith))
scan-print (negsuc n) h =
    rw (scan-minus _) (
      unfold convert in rw (starts_number-print_nat (suc n), read-print_nat (suc n)) (ground arith))

-- It fits in eleven characters.
pub length-print_int : (z : ℤ) → IsInt z → length (print_int z) ≤ 11
unfolding print_int print_nat
length-print_int (pos n) h = omega (arith, length-print_digits (suc n) 9 n [] (omega arith))
length-print_int (negsuc n) h =
    omega (arith, length-print_digits (suc (suc n)) 9 (suc n) [] (omega arith))
