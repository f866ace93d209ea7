-- ===== src/Nick/Chars.antt =====
-- nick.c: the two maps and the tables made of them, character by character.
use bitl_steam.Common.{
  ℕ, ◌<◌, ◌≡◌, ◌≢◌, refl, Bool, true, false, not, ◌&&◌, ◌||◌, [], ◌∷◌, Bytes, arith, All, is_digit,
  contains, ◌==◌, if◌then◌else◌,
}
use bitl_steam.Common.Bits.{passes, passes_lem}
use bitl_steam.Nick.{is_nick_char, nick_lc_chars, nick_uc_chars, lower, upper}

contains-lt :
    (n : ℕ) (xs : Bytes) (c : ℕ) → 0 < n → All (λ x. x < n) xs → contains xs c ≡ true → c < n
contains-lt n [] c p h e = ground arith
contains-lt n (x ∷ xs) c p (hx, h) e = ground (arith, contains-lt n xs c p h)

lc_ascii : All (λ x. x < 128) nick_lc_chars
lc_ascii = omega arith

uc_ascii : All (λ x. x < 128) nick_uc_chars
uc_ascii = omega arith

-- An allowed character is ASCII.
pub is_nick_char-lt : (c : ℕ) → is_nick_char c ≡ true → c < 128
unfolding is_nick_char
is_nick_char-lt c h = ground (
  arith,
  contains-lt 128 nick_lc_chars c (omega arith) lc_ascii,
  contains-lt 128 nick_uc_chars c (omega arith) uc_ascii,
)

-- What the tables are to do with a character, as a test.
fits : ℕ → Bool
fits c =
    if is_nick_char c
    then not (lower c == 0)
      && not (upper c == 0)
      && lower (lower c) == lower c
      && lower (upper c) == lower c
      && upper (lower c) == upper c
      && is_nick_char (lower c)
      && is_nick_char (upper c)
      && (if is_digit c then lower c == c else not (is_digit (lower c)))
    else lower c == 0 && upper c == 0

fits_table : passes (λ c. c == 0 || fits c) 128 ≡ true
unfolding passes fits is_nick_char lower upper
fits_table = refl

fits_below : (c : ℕ) → 0 < c → c < 128 → fits c ≡ true
fits_below c p h = ground (arith, passes_lem (λ c. c == 0 || fits c) fits_table h)

-- The tables on a character that may stand in a nick.
pub record Cased (c : ℕ) : Type 0 where
  pub ascii : c < 128
  pub lower_some : lower c ≢ 0
  pub upper_some : upper c ≢ 0
  pub lower_lower : lower (lower c) ≡ lower c
  pub lower_upper : lower (upper c) ≡ lower c
  pub upper_lower : upper (lower c) ≡ upper c
  pub lower_allowed : is_nick_char (lower c) ≡ true
  pub upper_allowed : is_nick_char (upper c) ≡ true
  pub lower_digit : is_digit (lower c) ≡ is_digit c

fits-Cased : (c : ℕ) → c < 128 → is_nick_char c ≡ true → fits c ≡ true → Cased c
unfolding fits
fits-Cased c h k e = ground arith

pub Cased-of : (c : ℕ) → 0 < c → is_nick_char c ≡ true → Cased c
Cased-of c p h = fits-Cased c (is_nick_char-lt c h) h (fits_below c p (is_nick_char-lt c h))

-- The tables hold zero for every other character.
pub lower_of_other : (c : ℕ) → 0 < c → c < 128 → is_nick_char c ≡ false → lower c ≡ 0
lower_of_other c p h k = unfold fits in ground (arith, fits_below c p h)

-- A C string of allowed characters.
abbrev pub IsNickText : Bytes → Type 0
IsNickText = All (λ c. (0 < c) × (is_nick_char c ≡ true))

digit_table : passes (λ c. not (is_digit c) || is_nick_char c) 128 ≡ true
unfolding passes is_nick_char
digit_table = refl

pub digit_allowed : (c : ℕ) → is_digit c ≡ true → is_nick_char c ≡ true
digit_allowed c h =
    ground (arith, passes_lem (λ c. not (is_digit c) || is_nick_char c) {i = c} digit_table)
