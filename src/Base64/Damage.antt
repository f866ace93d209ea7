-- ===== src/Base64/Damage.antt =====
-- lib/base64.c: what the decoder makes of bytes that are no base64 digits.
use bitl_steam.Common.{ℕ, ◌≡◌, ◌∷◌, Bytes, IsByte, false, contains}
use bitl_steam.Base64.{real_b64, decode_real, byte_0, byte_1, byte_2}
use bitl_steam.Base64.Tables.{rev_of_other}

-- No digit, no padding and no zero.
abbrev pub IsOther : ℕ → Type 0
IsOther c = IsByte c × (contains real_b64 c ≡ false)

-- Four bytes outside the alphabet do not stop the decoder: each group becomes three bytes 0xff, and
-- decoding goes on behind it.
pub decode-damaged :
    (c d e f : ℕ) (rest : Bytes)
    → IsOther c
    → IsOther d
    → IsOther e
    → IsOther f
    → decode_real (c ∷ d ∷ e ∷ f ∷ rest) ≡ 0xff ∷ 0xff ∷ 0xff ∷ decode_real rest
unfolding decode_real byte_0 byte_1 byte_2
decode-damaged c d e f rest (hc, oc) (hd, od) (he, oe) (hf, of) =
    rw (rev_of_other c hc oc, rev_of_other d hd od, rev_of_other e he oe, rev_of_other f hf of)
