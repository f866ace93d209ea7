-- ===== src/Stdio/Hex.antt =====
-- The C library's `"%02X"` and `"%2x"`, as lib/misc.c uses them.
use bitl_steam.Common.{
  ℕ, ◌+◌, ◌-◌, ◌*◌, ◌/◌, ◌%◌, ◌^◌, ◌<◌, ◌≡◌, arith, Bool, true, false, ◌&&◌, ◌||◌, [], ◌∷◌, ◌++◌,
  Bytes, is_digit, is_space, ltb, leb, ◌==◌, if◌then◌else◌,
}

unfoldable pub upper_hex : ℕ → ℕ
upper_hex d = if ltb d 10 then b'0' + d else b'A' + (d - 10)

-- `sprintf(s, "%02X", c)` for a byte
unfoldable pub print_hex2 : ℕ → Bytes
print_hex2 c = upper_hex (c / 16) ∷ upper_hex (c % 16) ∷ []

-- What sscanf returns: -1 at the end of the input, 0, or 1 with a 32-bit number.
pub data Scanned : Type 0 where
  ended unmatched : Scanned
  value : ℕ → Scanned

abbrev pub is_xdigit : ℕ → Bool
is_xdigit c = is_digit c || (leb b'A' c && leb c b'F') || (leb b'a' c && leb c b'f')

abbrev pub hex_value : ℕ → ℕ
hex_value c = if is_digit c then c - b'0' else if leb c b'F' then c - b'A' + 10 else c - b'a' + 10

-- A digit behind a sign, which the width of 2 includes.
sign_digit : Bool → Bytes → Scanned
sign_digit negative [] = unmatched
sign_digit negative (d ∷ s) =
    if is_xdigit d
    then value (if negative then (2 ^ 32 - hex_value d) % 2 ^ 32 else hex_value d)
    else unmatched

-- "0x" alone is no number.
second_digit : ℕ → Bytes → Scanned
second_digit c [] = value (hex_value c)
second_digit c (d ∷ s) =
    if is_xdigit d
    then value (hex_value c * 16 + hex_value d)
    else if c == b'0' && (d == b'x' || d == b'X')
    then unmatched
    else value (hex_value c)

unfoldable pub scan_hex2 : Bytes → Scanned
unfolding sign_digit second_digit
scan_hex2 [] = ended
scan_hex2 (c ∷ s) =
    let rest = scan_hex2 s in
    if is_space c
    then rest
    else if is_xdigit c
    then second_digit c s
    else if c == b'+'
    then sign_digit false s
    else if c == b'-'
    then sign_digit true s
    else unmatched

upper_hex_digit : (d : ℕ) → d < 16 → is_xdigit (upper_hex d) ≡ true
unfolding upper_hex
upper_hex_digit d h = ground arith

upper_hex_space : (d : ℕ) → d < 16 → is_space (upper_hex d) ≡ false
unfolding upper_hex
upper_hex_space d h = ground arith

upper_hex_value : (d : ℕ) → d < 16 → hex_value (upper_hex d) ≡ d
unfolding upper_hex
upper_hex_value d h = ground arith

pub scan_hex2-print_hex2 :
    (c : ℕ) (rest : Bytes) → c < 256 → scan_hex2 (print_hex2 c ++ rest) ≡ value c
unfolding scan_hex2 print_hex2
scan_hex2-print_hex2 c rest h =
    let whole : c / 16 * 16 + c % 16 ≡ c = omega arith in
    rw (
      upper_hex_space (c / 16) (omega arith),
      upper_hex_digit (c / 16) (omega arith),
      upper_hex_digit (c % 16) (omega arith),
      upper_hex_value (c / 16) (omega arith),
      upper_hex_value (c % 16) (omega arith),
      whole,
    )
