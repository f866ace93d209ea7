-- ===== src/Arc/Examples.antt =====
-- lib/arc.c: an encoded password, and the theorems at concrete inputs.
use bitl_steam.Common.{
  ◌≡◌, refl, none, some, [], ◌∷◌, ◌++◌, Bytes, All, InString, c_string, codes, arith,
}
use bitl_steam.Arc.{padded, arc_encode, arc_decode}
use bitl_steam.Arc.Decode.{arc_decode-arc_encode}

abbrev salt : Bytes
salt = 1 ∷ 2 ∷ 3 ∷ 4 ∷ 5 ∷ 6 ∷ []

-- A secret padded to twelve bytes.
pad_secret :
    padded (codes "sekrit!") 12 (9 ∷ 8 ∷ 7 ∷ 6 ∷ 5 ∷ []) ≡ codes "sekrit!" ++ 0 ∷ 9 ∷ 8 ∷ 7 ∷ 6 ∷ []
unfolding padded
pad_secret = refl

decode_short : arc_decode (1 ∷ 2 ∷ []) (codes "pass") ≡ none
unfolding arc_decode
decode_short = refl

secret-InString : All InString (codes "sekrit!")
secret-InString = ground arith

arc_decode-arc_encode_example :
    (plain : Bytes) × (arc_decode
        (arc_encode salt (9 ∷ 8 ∷ 7 ∷ 6 ∷ 5 ∷ []) (codes "sekrit!") (codes "pass") 12)
        (codes "pass")
      ≡ some plain)
    × (c_string plain ≡ codes "sekrit!")
arc_decode-arc_encode_example =
    arc_decode-arc_encode salt (9 ∷ 8 ∷ 7 ∷ 6 ∷ 5 ∷ []) (codes "sekrit!") (codes "pass") 12 refl
      secret-InString
