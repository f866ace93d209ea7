-- ===== src/Stdio.antt =====
-- The C library's decimal printing and scanning of an `int`, as the program uses them: `"%d"` of
-- g_snprintf and of sscanf.
pub mod RoundTrip
pub mod Hex
use bitl_steam.Common.{
  ℕ, zero, suc, ◌+◌, ◌-◌, ◌*◌, ◌/◌, ◌%◌, ◌^◌, ◌<◌, Bool, ◌&&◌, ◌||◌, Option, none, some, [], ◌∷◌,
  Bytes, is_digit, is_space, ltb, leb, ◌==◌, if◌then◌else◌,
}
use bitl_steam.Common.Outcome.{Outcome, done, fault}

-- `negsuc n` is -(n + 1).
pub data ℤ : Type 0 where
  pos : ℕ → ℤ
  negsuc : ℕ → ℤ

-- The fuel is one more than the number: the number falls in each round.
unfoldable pub print_digits : ℕ → ℕ → Bytes → Bytes
print_digits zero n out = out
print_digits (suc f) n out =
    let rest = print_digits f (n / 10) ((b'0' + n % 10) ∷ out) in
    if ltb n 10 then (b'0' + n) ∷ out else rest

unfoldable pub print_nat : ℕ → Bytes
unfolding print_digits
print_nat n = print_digits (suc n) n []

unfoldable pub print_int : ℤ → Bytes
unfolding print_nat
print_int (pos n) = print_nat n
print_int (negsuc n) = b'-' ∷ print_nat (suc n)

-- The digits from here on, behind those that spell `n`.
read_digits : ℕ → Bytes → ℕ
read_digits n [] = n
read_digits n (c ∷ s) = if is_digit c then read_digits (n * 10 + (c - b'0')) s else n

starts_number : Bytes → Bool
starts_number [] = Bool.false
starts_number (c ∷ s) = is_digit c

-- `none`: no conversion. A value outside `int` makes sscanf undefined.
convert : Bool → Bytes → Option (Outcome ℤ)
unfolding read_digits starts_number
convert negative s =
    let n = read_digits 0 s in
    if starts_number s
    then some (
        if negative
        then (if n == 0
            then done (pos 0)
            else if leb n (2 ^ 31)
            then done (negsuc (n - 1))
            else fault)
        else if ltb n (2 ^ 31)
        then done (pos n)
        else fault)
    else none

signed : Bytes → Option (Outcome ℤ)
unfolding convert
signed [] = none
signed (c ∷ s) =
    if c == b'-'
    then convert Bool.true s
    else if c == b'+'
    then convert Bool.false s
    else convert Bool.false (c ∷ s)

-- `sscanf(s, "%d", &i) == 1`, with the value of `i`.
unfoldable pub scan_int : Bytes → Option (Outcome ℤ)
unfolding signed
scan_int [] = none
scan_int (c ∷ s) = if is_space c then scan_int s else signed (c ∷ s)

abbrev pub IsInt : ℤ → Type 0
IsInt (pos n) = n < 2 ^ 31
IsInt (negsuc n) = n < 2 ^ 31
