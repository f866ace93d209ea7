-- ===== src/Base64/Bounds.antt =====
-- lib/base64.c: the buffers that are allocated for the results.
use bitl_steam.Common.{
  ℕ, ◌+◌, ◌*◌, ◌/◌, ◌<◌, ◌≤◌, ◌≡◌, ◌≢◌, refl, arith, [], ◌∷◌, Bytes, IsByte, All, length,
}
use bitl_steam.Common.{Bool, true, false, if◌then◌else◌}
use bitl_steam.Base64.{stops, rev, byte_0, byte_1, byte_2, encode_real, decode_real}
use bitl_steam.Base64.Tables.{
  index_0_lem, index_1_lem, index_2_lem, index_3_lem, last_1_lem, last_2_lem, digit-ne-zero,
}

-- `base64_encode` allocates one byte more than this for the closing zero.
abbrev pub encode_size : ℕ → ℕ
encode_size len = (len + 2) / 3 * 4

-- `base64_decode` allocates this many bytes for the result and its closing zero.
abbrev pub decode_size : ℕ → ℕ
decode_size len = (len + 6) / 4 * 3

-- The encoder fills its buffer exactly, up to the closing zero.
pub length-encode : (s : Bytes) → length (encode_real s) ≡ encode_size (length s)
unfolding encode_real
length-encode [] = refl
length-encode (a ∷ []) = refl
length-encode (a ∷ b ∷ []) = refl
length-encode (a ∷ b ∷ c ∷ s) = omega (arith, length-encode s)

-- One round adds three bytes at most.
round_length :
    (p q r s : Bool) (x y z : ℕ) (rest : Bytes)
    → length (
        if p
        then []
        else if q
        then []
        else if r
        then x ∷ []
        else if s
        then x ∷ y ∷ []
        else x ∷ y ∷ z ∷ rest)
      ≤ length rest + 3
round_length true q r s x y z rest = omega arith
round_length false true r s x y z rest = omega arith
round_length false false true s x y z rest = omega arith
round_length false false false true x y z rest = omega arith
round_length false false false false x y z rest = omega arith

length-decode-le : (s : Bytes) → length (decode_real s) ≤ length s / 4 * 3
unfolding decode_real
length-decode-le [] = omega arith
length-decode-le (a ∷ []) = omega arith
length-decode-le (a ∷ b ∷ []) = omega arith
length-decode-le (a ∷ b ∷ c ∷ []) = omega arith
length-decode-le (a ∷ b ∷ c ∷ d ∷ s) = omega (
  arith,
  round_length (stops (rev a)) (stops (rev b)) (stops (rev c)) (stops (rev d))
      (byte_0 (rev a) (rev b)) (byte_1 (rev b) (rev c)) (byte_2 (rev c) (rev d)) (decode_real s),
  length-decode-le s,
)

-- Whatever the text, the decoder leaves room for the byte that it may have begun and for the closing
-- zero.
pub length-decode : (s : Bytes) → length (decode_real s) < decode_size (length s)
length-decode s = omega (arith, length-decode-le s)

ruleset bounds = (arith, index_0_lem, index_1_lem, index_2_lem, index_3_lem, last_1_lem, last_2_lem)

-- An encoded text has no zero byte, so as a C string it ends where the encoder ended it.
pub encode_no_zero : (s : Bytes) → All IsByte s → All (λ c. c ≢ 0) (encode_real s)
unfolding encode_real
encode_no_zero [] h = tt
encode_no_zero (a ∷ []) (ha, _) = (
  digit-ne-zero _ (omega bounds),
  (
    digit-ne-zero _ (omega bounds),
    (digit-ne-zero 64 (omega arith), (digit-ne-zero 64 (omega arith), tt)),
  ),
)
encode_no_zero (a ∷ b ∷ []) (ha, (hb, _)) = (
  digit-ne-zero _ (omega bounds),
  (
    digit-ne-zero _ (omega bounds),
    (digit-ne-zero _ (omega bounds), (digit-ne-zero 64 (omega arith), tt)),
  ),
)
encode_no_zero (a ∷ b ∷ c ∷ s) (ha, (hb, (hc, h))) = (
  digit-ne-zero _ (omega bounds),
  (
    digit-ne-zero _ (omega bounds),
    (digit-ne-zero _ (omega bounds), (digit-ne-zero _ (omega bounds), encode_no_zero s h)),
  ),
)
