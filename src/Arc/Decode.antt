-- ===== src/Arc/Decode.antt =====
-- lib/arc.c: decoding an encoded text.
use bitl_steam.Common.{
  ℕ, ◌-◌, ◌%◌, ◌≡◌, refl, ap, sym, ◌∙◌, false, ◌&&◌, some, [], ◌∷◌, ◌++◌, Bytes, All, InString,
  c_string, c_string-All, c_string-InString, length, length-append, take, drop, take-append_length,
  drop-append_length, ltb, arith, Bool-cases, inl, inr,
}
use bitl_steam.Common.Xor.{bit_xor_twice}
use bitl_steam.Arc.{
  ArcState, advance, output, keymaker, xor_stream, padded, iv_len, arc_encode, arc_decode,
}

-- The same stream twice leaves what was there.
xor_stream_twice : (st : ArcState) (text : Bytes) → xor_stream st (xor_stream st text) ≡ text
unfolding xor_stream
xor_stream_twice st [] = refl
xor_stream_twice st (c ∷ text) =
    rw (bit_xor_twice c (output (advance st)), xor_stream_twice (advance st) text)

arc_decode-append :
    (iv text password : Bytes)
    → length iv ≡ iv_len
    → arc_decode (iv ++ text) password ≡ some (xor_stream (keymaker (password ++ iv)) text)
unfolding arc_decode
arc_decode-append iv text password h =
    let front : take iv_len (iv ++ text) ≡ iv =
      sym (ap (λ n. take n (iv ++ text)) h) ∙ take-append_length iv text in
    let back : drop iv_len (iv ++ text) ≡ text =
      sym (ap (λ n. drop n (iv ++ text)) h) ∙ drop-append_length iv text in
    let long : ltb (length (iv ++ text)) iv_len ≡ false = (ground (arith, length-append iv text)) in
    rw (long, front, back)

c_string-padded :
    (clear fill : Bytes) (pad_to : ℕ)
    → All InString clear
    → c_string (padded clear pad_to fill) ≡ clear
unfolding padded
c_string-padded clear fill pad_to h =
    elim (Bool-cases (ltb 0 pad_to && ltb 0 (length clear % pad_to))) [
      | inl pad ↦
          (rw pad (c_string-InString clear (take (pad_to - length clear % pad_to - 1) fill) h))
      | inr whole ↦ (rw whole (c_string-All clear h))
    ]

-- What was encoded with a password is decoded with it, whatever the six random bytes in front and
-- the random bytes of the padding: the C string at the start of the result is the text.
pub arc_decode-arc_encode :
    (iv fill clear password : Bytes) (pad_to : ℕ)
    → length iv ≡ iv_len
    → All InString clear
    → (plain : Bytes) × (arc_decode (arc_encode iv fill clear password pad_to) password
        ≡ some plain)
      × (c_string plain ≡ clear)
unfolding arc_encode
arc_decode-arc_encode iv fill clear password pad_to h hc =
    let text = padded clear pad_to fill in
    let st = keymaker (password ++ iv) in
    (
      text,
      arc_decode-append iv (xor_stream st text) password h ∙ ap some (xor_stream_twice st text),
      c_string-padded clear fill pad_to hc,
    )
