-- ===== src/Base64/Examples.antt =====
-- lib/base64.c: runs, and the theorems at concrete inputs.
use bitl_steam.Common.{◌≡◌, refl, arith, [], ◌∷◌, codes}
use bitl_steam.Base64.{
  encode_real, decode_real, digit, index_0, index_1, index_2, index_3, last_1, last_2, rev, byte_0,
  byte_1, byte_2,
}
use bitl_steam.Base64.RoundTrip.{decode-encode}

encode_hello : encode_real (codes "hello") ≡ codes "aGVsbG8="
unfolding encode_real digit index_0 index_1 index_2 index_3 last_1 last_2
encode_hello = refl

decode_hello : decode_real (codes "aGVsbG8=") ≡ codes "hello"
unfolding decode_real rev byte_0 byte_1 byte_2
decode_hello = refl

decode-encode_example : decode_real (encode_real (0 ∷ 255 ∷ 16 ∷ 7 ∷ [])) ≡ 0 ∷ 255 ∷ 16 ∷ 7 ∷ []
decode-encode_example = decode-encode (0 ∷ 255 ∷ 16 ∷ 7 ∷ []) (omega arith)
