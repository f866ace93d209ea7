-- ===== src/Misc/Http/Examples.antt =====
-- lib/misc.c: runs of the URL encoding, and the theorems at concrete texts.
use bitl_steam.Common.{InString, ◌≡◌, ◌≢◌, refl, [], ◌∷◌, ◌++◌, Bytes, All, codes, arith}
use bitl_steam.Common.Outcome.{done}
use bitl_steam.Stdio.Hex.{scan_hex2, print_hex2, upper_hex}
use bitl_steam.Misc.Http.{http_encode, decode_from, put, escape, http_decode}
use bitl_steam.Misc.Http.RoundTrip.{http_decode-http_encode}

abbrev text : Bytes
text = codes "a b" ++ 233 ∷ codes "%."

encode_text : http_encode text ≡ codes "a%20b%E9%25."
unfolding http_encode print_hex2 upper_hex
encode_text = refl

decode_text : http_decode (codes "a%20b%e9%25.") ≡ done text
unfolding http_decode decode_from put escape scan_hex2
decode_text = refl

decode_bad : http_decode (codes "ab%zz") ≡ done []
unfolding http_decode decode_from put escape scan_hex2
decode_bad = refl

text-InString : All InString text
text-InString = ground arith

http_decode-http_encode_example : http_decode (http_encode text) ≡ done text
http_decode-http_encode_example = http_decode-http_encode text text-InString

plain : All (λ c. c ≢ b'%') (codes "ab")
plain = ground arith
