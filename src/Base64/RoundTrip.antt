-- ===== src/Base64/RoundTrip.antt =====
-- lib/base64.c: decoding an encoded text.
use bitl_steam.Common.{ℕ, ◌<◌, ◌≡◌, refl, arith, [], ◌∷◌, Bytes, IsByte, All}
use bitl_steam.Base64.{
  digit, index_0, index_1, index_2, index_3, last_1, last_2, byte_0, byte_1, byte_2, encode_real,
  decode_real,
}
use bitl_steam.Base64.Tables.{stops_of_lt}
use bitl_steam.Base64.Tables.{
  index_0_lem, index_1_lem, index_2_lem, index_3_lem, last_1_lem, last_2_lem, byte_0_lem,
  byte_1_lem, byte_2_lem, rev-digit,
}

module _ (i j : ℕ) (hi : i < 64) (hj : j < 64) where
  -- A round over four digits that are no padding.
  decode-digits :
      (k l : ℕ) (rest : Bytes)
      → k < 64
      → l < 64
      → decode_real (digit i ∷ digit j ∷ digit k ∷ digit l ∷ rest)
        ≡ byte_0 i j ∷ byte_1 j k ∷ byte_2 k l ∷ decode_real rest
  unfolding decode_real
  decode-digits k l rest hk hl = rw (
    rev-digit i (omega arith),
    rev-digit j (omega arith),
    rev-digit k (omega arith),
    rev-digit l (omega arith),
    stops_of_lt i hi,
    stops_of_lt j hj,
    stops_of_lt k hk,
    stops_of_lt l hl,
  )

  decode-padded_one :
      (k : ℕ)
      → k < 64
      → decode_real (digit i ∷ digit j ∷ digit k ∷ digit 64 ∷ []) ≡ byte_0 i j ∷ byte_1 j k ∷ []
  unfolding decode_real
  decode-padded_one k hk = rw (
    rev-digit i (omega arith),
    rev-digit j (omega arith),
    rev-digit k (omega arith),
    rev-digit 64 (omega arith),
    stops_of_lt i hi,
    stops_of_lt j hj,
    stops_of_lt k hk,
  )

  decode-padded_two : decode_real (digit i ∷ digit j ∷ digit 64 ∷ digit 64 ∷ []) ≡ byte_0 i j ∷ []
  unfolding decode_real
  decode-padded_two = rw (
    rev-digit i (omega arith),
    rev-digit j (omega arith),
    rev-digit 64 (omega arith),
    stops_of_lt i hi,
    stops_of_lt j hj,
  )

-- Each byte comes back from the two indices that hold its bits.
byte_0-index : (a b : ℕ) → a < 256 → b < 256 → byte_0 (index_0 a) (index_1 a b) ≡ a
byte_0-index a b ha hb =
    omega (arith, byte_0_lem (index_0 a) (index_1 a b), index_0_lem a, index_1_lem a b)

byte_1-index : (a b c : ℕ) → a < 256 → b < 256 → c < 256 → byte_1 (index_1 a b) (index_2 b c) ≡ b
byte_1-index a b c ha hb hc =
    omega (arith, byte_1_lem (index_1 a b) (index_2 b c), index_1_lem a b, index_2_lem b c)

byte_2-index : (b c : ℕ) → b < 256 → c < 256 → byte_2 (index_2 b c) (index_3 c) ≡ c
byte_2-index b c hb hc =
    omega (arith, byte_2_lem (index_2 b c) (index_3 c), index_2_lem b c, index_3_lem c)

byte_0-last : (a : ℕ) → a < 256 → byte_0 (index_0 a) (last_1 a) ≡ a
byte_0-last a ha = omega (arith, byte_0_lem (index_0 a) (last_1 a), index_0_lem a, last_1_lem a)

byte_1-last : (a b : ℕ) → a < 256 → b < 256 → byte_1 (index_1 a b) (last_2 b) ≡ b
byte_1-last a b ha hb =
    omega (arith, byte_1_lem (index_1 a b) (last_2 b), index_1_lem a b, last_2_lem b)

ruleset bounds = (arith, index_0_lem, index_1_lem, index_2_lem, index_3_lem, last_1_lem, last_2_lem)

-- Decoding what was encoded gives the bytes back, for every string of bytes.
pub decode-encode : (s : Bytes) → All IsByte s → decode_real (encode_real s) ≡ s
unfolding encode_real
decode-encode [] h = unfold decode_real in refl
decode-encode (a ∷ []) (ha, _) =
    rw (decode-padded_two (index_0 a) (last_1 a) (omega bounds) (omega bounds), byte_0-last a ha)
decode-encode (a ∷ b ∷ []) (ha, (hb, _)) = rw (
  decode-padded_one (index_0 a) (index_1 a b) (omega bounds) (omega bounds) (last_2 b)
      (omega bounds),
  byte_0-index a b ha hb,
  byte_1-last a b ha hb,
)
decode-encode (a ∷ b ∷ c ∷ s) (ha, (hb, (hc, h))) = rw (
  decode-digits (index_0 a) (index_1 a b) (omega bounds) (omega bounds) (index_2 b c) (index_3 c) _
      (omega bounds) (omega bounds),
  byte_0-index a b ha hb,
  byte_1-index a b c ha hb hc,
  byte_2-index b c hb hc,
  decode-encode s h,
)
