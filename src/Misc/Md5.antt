-- ===== src/Misc/Md5.antt =====
-- lib/misc.c: passwords that are stored as a hash. `md5` is the hash function of md5.c, a copy of
-- another project.
use bitl_steam.Common.{
  ◌≡◌, ◌↔◌, refl, true, Bytes, ◌++◌, IsByte, length, length-append, take, drop, take-append_length,
  drop-append_length, Bool-cases, inl, inr, ap, sym, ◌∙◌, false≢true, ◌==◌, strcmp_eq,
  strcmp_eq_iff, if◌then◌else◌, All, All-append, arith,
}
use bitl_steam.Stdio.{ℤ, pos, negsuc}
use bitl_steam.Base64.{encode_real, decode_real}
use bitl_steam.Base64.RoundTrip.{decode-encode}

module _ (md5 : Bytes → Bytes) where
  -- The stored text is base64 of the 16 bytes of a hash and 5 bytes of salt.
  unfoldable pub md5_verify_password : Bytes → Bytes → ℤ
  md5_verify_password password hash =
      let pass_dec = decode_real hash in
      if length pass_dec == 21
      then (if strcmp_eq (take 16 pass_dec) (md5 (password ++ drop 16 pass_dec))
          then pos 0
          else pos 1)
      else negsuc 0

  -- A password is accepted by the text that was made from it and some salt, and another one only
  -- if its hash with that salt is the same.
  pub md5_verify_password_lem :
      (password other salt : Bytes)
      → ((s : Bytes) → (length (md5 s) ≡ 16) × All IsByte (md5 s))
      → length salt ≡ 5
      → All IsByte salt
      → (md5_verify_password other (encode_real (md5 (password ++ salt) ++ salt)) ≡ pos 0)
        ↔ (md5 (other ++ salt) ≡ md5 (password ++ salt))
  unfolding md5_verify_password
  md5_verify_password_lem password other salt h five bytes =
      let digest = md5 (password ++ salt) in
      let (size, digits) = h (password ++ salt) in
      let back : decode_real (encode_real (digest ++ salt)) ≡ digest ++ salt =
        decode-encode (digest ++ salt) (All-append IsByte digest salt digits bytes) in
      let whole : (length (digest ++ salt) == 21) ≡ true =
        (let l = length-append digest salt in ground arith) in
      let front : take 16 (digest ++ salt) ≡ digest =
        ap (λ n. take n (digest ++ salt)) (sym size) ∙ take-append_length digest salt in
      let behind : drop 16 (digest ++ salt) ≡ salt =
        ap (λ n. drop n (digest ++ salt)) (sym size) ∙ drop-append_length digest salt in
      let same = strcmp_eq_iff digest (md5 (other ++ salt)) in
      rw (back, whole, front, behind)
        (elim (Bool-cases (strcmp_eq digest (md5 (other ++ salt)))) [
          | inl e ↦ rw e (λ q. sym (same.0 e), λ q. refl)
          | inr e ↦ rw e (λ q. cc, λ q. absurd (false≢true (sym e ∙ same.1 (sym q))))
        ])
