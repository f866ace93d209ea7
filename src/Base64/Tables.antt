-- ===== src/Base64/Tables.antt =====
-- lib/base64.c: what the indices, the bytes and the two tables are as numbers.
use Prim.Native.Nat.{bit_or}
use bitl_steam.Common.{
  ℕ, ◌+◌, ◌*◌, ◌/◌, ◌%◌, ◌^◌, ◌<◌, ◌≡◌, refl, arith, ◌≢◌, ◌-◌, min, ◌⊎◌, false, contains, ltb, ◌==◌,
  if◌then◌else◌,
}
use bitl_steam.Common.Bits.{passes, passes_pairs, agree_below, agree_pairs}
use bitl_steam.Base64.{
  real_b64, stops, digit, index_0, index_1, index_2, index_3, last_1, last_2, rev, byte_0, byte_1,
  byte_2,
}

pub last_1_lem : (a : ℕ) → a < 256 → last_1 a ≡ a % 4 * 16
last_1_lem = agree_below 256 last_1 (λ a. a % 4 * 16) (unfold passes last_1 in refl)

pub last_2_lem : (b : ℕ) → b < 256 → last_2 b ≡ b % 16 * 4
last_2_lem = agree_below 256 last_2 (λ a. a % 16 * 4) (unfold passes last_2 in refl)

pub index_3_lem : (c : ℕ) → c < 256 → index_3 c ≡ c % 64
index_3_lem = agree_below 256 index_3 (λ a. a % 64) (unfold passes index_3 in refl)

or_16 : (x y : ℕ) → x < 4 → y < 16 → bit_or (x * 16) y ≡ x * 16 + y
or_16 = agree_pairs 4 16 _ _ (unfold passes_pairs in refl)

or_4 : (x y : ℕ) → x < 16 → y < 4 → bit_or (x * 4) y ≡ x * 4 + y
or_4 = agree_pairs 16 4 _ _ (unfold passes_pairs in refl)

pub index_0_lem : (a : ℕ) → index_0 a ≡ a / 4
unfolding index_0
index_0_lem a = omega arith

pub index_1_lem : (a b : ℕ) → a < 256 → b < 256 → index_1 a b ≡ a % 4 * 16 + b / 16
unfolding index_1 last_1
index_1_lem a b ha hb = rw (last_1_lem a ha) (or_16 (a % 4) (b / 16) (omega arith) (omega arith))

pub index_2_lem : (b c : ℕ) → b < 256 → c < 256 → index_2 b c ≡ b % 16 * 4 + c / 64
unfolding index_2 last_2
index_2_lem b c hb hc = rw (last_2_lem b hb) (or_4 (b % 16) (c / 64) (omega arith) (omega arith))

pub byte_0_lem : (s t : ℕ) → s < 64 → t < 64 → byte_0 s t ≡ s * 4 + t / 16
byte_0_lem = agree_pairs 64 64 byte_0 (λ s t. s * 4 + t / 16) (unfold passes_pairs byte_0 in refl)

pub byte_1_lem : (t u : ℕ) → t < 64 → u < 64 → byte_1 t u ≡ t % 16 * 16 + u / 4
byte_1_lem =
    agree_pairs 64 64 byte_1 (λ t u. t % 16 * 16 + u / 4) (unfold passes_pairs byte_1 in refl)

pub byte_2_lem : (u v : ℕ) → u < 64 → v < 64 → byte_2 u v ≡ u % 4 * 64 + v
byte_2_lem = agree_pairs 64 64 byte_2 (λ u v. u % 4 * 64 + v) (unfold passes_pairs byte_2 in refl)

-- The reverse table undoes the digits, the padding included.
pub rev-digit : (i : ℕ) → i < 65 → rev (digit i) ≡ i
rev-digit = agree_below 65 (λ i. rev (digit i)) (λ i. i) (unfold passes rev digit in refl)

digit_pos : (i : ℕ) → i < 65 → min (digit i) 1 ≡ 1
digit_pos = agree_below 65 (λ i. min (digit i) 1) (λ i. 1) (unfold passes digit in refl)

pub digit-ne-zero : (i : ℕ) → i < 65 → digit i ≢ 0
digit-ne-zero i h e = omega (arith, digit_pos i h)

abbrev pub minus_one : ℕ
minus_one = 2 ^ 32 - 1

rev_table :
    (c : ℕ)
    → c < 256
    → (if contains real_b64 c then 0 else rev c) ≡ (if contains real_b64 c then 0 else minus_one)
rev_table = agree_below 256 _ _ (unfold passes rev in refl)

-- Every other byte reads as -1.
pub rev_of_other : (c : ℕ) → c < 256 → contains real_b64 c ≡ false → rev c ≡ minus_one
rev_of_other c h e = rw e at (rev_table c h)

in_range : ℕ → ℕ
in_range sx = if stops sx then 1 else if ltb sx 64 then 1 else if sx == minus_one then 1 else 0

rev_table_bound : (c : ℕ) → c < 256 → in_range (rev c) ≡ 1
rev_table_bound =
    agree_below 256 (λ c. in_range (rev c)) (λ c. 1) (unfold passes rev in_range in refl)

in_range_cases : (sx : ℕ) → in_range sx ≡ 1 → stops sx ≡ false → (sx < 64) ⊎ (sx ≡ minus_one)
unfolding in_range
in_range_cases sx h e = ground arith

-- What does not stop the decoder is a digit's index or -1.
pub rev_range : (c : ℕ) → c < 256 → stops (rev c) ≡ false → (rev c < 64) ⊎ (rev c ≡ minus_one)
rev_range c h e = in_range_cases (rev c) (rev_table_bound c h) e

pub stops_of_lt : (i : ℕ) → i < 64 → stops i ≡ false
stops_of_lt i h = ground arith
