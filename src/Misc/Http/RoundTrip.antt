-- ===== src/Misc/Http/RoundTrip.antt =====
-- lib/misc.c: decoding an encoded text, and the shape of encoded texts.
use bitl_steam.Common.{
  c_string-All, InString, ℕ, ◌*◌, ◌/◌, ◌%◌, ◌<◌, ◌≤◌, ◌≡◌, ◌≢◌, refl, ap, ◌∙◌, true, false, ◌||◌,
  Option, some, [], ◌∷◌, ◌++◌, Bytes, All, All-append, length, length-append, ◌==◌, ==_refl, arith,
  Bool-cases, inl, inr,
}
use bitl_steam.Common.Outcome.{Outcome, done, fault}
use bitl_steam.Stdio.Hex.{print_hex2, upper_hex, value, scan_hex2, scan_hex2-print_hex2}
use bitl_steam.Misc.Http.{is_unreserved, http_encode, put, escape, decode_from, copied, http_decode}

decode_from-plain :
    (c : ℕ) (t : Bytes) → (c == b'%') ≡ false → decode_from 0 (c ∷ t) ≡ put c (decode_from 0 t)
unfolding decode_from
decode_from-plain c t h = rw (h, decode_from)

decode_from-skip : (c : ℕ) (t : Bytes) → decode_from 2 (print_hex2 c ++ t) ≡ decode_from 0 t
unfolding decode_from print_hex2
decode_from-skip c t = refl

decode_from-percent :
    (s : Bytes) → decode_from 0 (b'%' ∷ s) ≡ escape (scan_hex2 s) (decode_from 2 s)
unfolding decode_from
decode_from-percent s = refl

escape-value : (k : ℕ) (r : Outcome (Option Bytes)) → k < 256 → escape (value k) r ≡ put k r
unfolding escape
escape-value k r h = (let small : k % 256 ≡ k = omega arith in rw small)

decode_from-escaped :
    (c : ℕ) (t : Bytes)
    → c < 256
    → decode_from 0 (b'%' ∷ print_hex2 c ++ t) ≡ put c (decode_from 0 t)
decode_from-escaped c t h =
    decode_from-percent (print_hex2 c ++ t)
    ∙ (rw (scan_hex2-print_hex2 c t h, decode_from-skip c t))
    ∙ escape-value c (decode_from 0 t) h

decode_from-encode : (s : Bytes) → All InString s → decode_from 0 (http_encode s) ≡ done (some s)
unfolding http_encode put
decode_from-encode [] h = unfold decode_from in refl
decode_from-encode (c ∷ s) ((low, high), h) =
    let same = decode_from-encode s h in
    elim (Bool-cases (is_unreserved c)) [
      | inl plain ↦
          let other : (c == b'%') ≡ false = (ground arith) in
          rw (plain, decode_from-plain c (http_encode s) other, same)
      | inr odd ↦ (rw (odd, decode_from-escaped c (http_encode s) high, same))
    ]

-- Every C string comes back from its encoding.
pub http_decode-http_encode : (s : Bytes) → All InString s → http_decode (http_encode s) ≡ done s
unfolding http_decode
http_decode-http_encode s h = rw (decode_from-encode s h, c_string-All s h)

-- A byte of an encoded text: unreserved, or part of an escape.
abbrev pub IsSafe : ℕ → Type 0
IsSafe c = (is_unreserved c || c == b'%') ≡ true

upper_hex-IsSafe : (d : ℕ) → d < 16 → IsSafe (upper_hex d)
unfolding upper_hex
upper_hex-IsSafe d h = ground arith

print_hex2-IsSafe : (c : ℕ) → c < 256 → All IsSafe (print_hex2 c)
unfolding print_hex2
print_hex2-IsSafe c h =
    let high : c / 16 < 16 = omega arith in
    let low : c % 16 < 16 = omega arith in
    (upper_hex-IsSafe (c / 16) high, (upper_hex-IsSafe (c % 16) low, tt))

length-print_hex2 : (c : ℕ) → length (print_hex2 c) ≡ 2
unfolding print_hex2
length-print_hex2 c = refl

-- An encoded text has only unreserved bytes and percent signs, and is at most three times as long,
-- the room that the function's callers have to leave.
pub http_encode-IsSafe :
    (s : Bytes)
    → All InString s
    → All IsSafe (http_encode s) × (length (http_encode s) ≤ 3 * length s)
unfolding http_encode
http_encode-IsSafe [] h = (tt, omega arith)
http_encode-IsSafe (c ∷ s) ((low, high), h) =
    let (safe, size) = http_encode-IsSafe s h in
    elim (Bool-cases (is_unreserved c)) [
      | inl plain ↦ rw plain ((rw plain, safe), omega arith)
      | inr odd ↦ rw odd (
        (
          rw (==_refl b'%'),
          All-append _ (print_hex2 c) (http_encode s) (print_hex2-IsSafe c high) safe,
        ),
        omega (arith, length-append (print_hex2 c) (http_encode s), length-print_hex2 c),
      )
    ]

decode_from-cut : (s : Bytes) → All (λ c. c ≢ b'%') s → decode_from 0 (s ++ b'%' ∷ []) ≡ fault
unfolding decode_from put
decode_from-cut [] h = unfold scan_hex2 escape in refl
decode_from-cut (c ∷ s) (other, h) =
    let same = decode_from-cut s h in
    let plain : (c == b'%') ≡ false = (ground arith) in
    decode_from-plain c (s ++ b'%' ∷ []) plain ∙ (rw same)

-- A percent sign at the end of a text that has no other makes the decoder read beyond the end.
pub http_decode-cut : (s : Bytes) → All (λ c. c ≢ b'%') s → http_decode (s ++ b'%' ∷ []) ≡ fault
unfolding http_decode
http_decode-cut s h = ap copied (decode_from-cut s h)
