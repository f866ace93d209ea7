-- ===== src/Nick/Dedupe.antt =====
-- nick.c: `nick_dedupe`.
use bitl_steam.Common.{
  ℕ, zero, suc, ◌+◌, ◌<◌, ◌≤◌, ◌≡◌, refl, ◌∙◌, Bool, true, false, [], ◌∷◌, ◌++◌, append-nil,
  append_assoc, Bytes, arith, length, length-append, replicate,
}
use bitl_steam.Nick.{max_nick_length, tweak, is_free, dedupe, inf_protection}

length-tweak : (nick : Bytes) → length nick ≤ 24 → length (tweak nick) ≤ 24
unfolding tweak
length-tweak [] h = omega arith
length-tweak (c ∷ s) h = ground (arith, length-append (c ∷ s) (b'_' ∷ []))

-- From a nick of at most 24 characters, and with a made-up one of that size: the result of
-- `nick_dedupe` is free, or with a warning it is what was made up, and has at most 24 characters.
pub dedupe_sound :
    (n : ℕ) (taken : Bytes → Bool) (made_up nick : Bytes)
    → length nick ≤ max_nick_length
    → length made_up ≤ max_nick_length
    → ((dedupe n taken made_up nick).1 ≡ false
        → is_free taken (dedupe n taken made_up nick).0 ≡ true)
      × ((dedupe n taken made_up nick).1 ≡ true → (dedupe n taken made_up nick).0 ≡ made_up)
      × (length (dedupe n taken made_up nick).0 ≤ max_nick_length)
unfolding dedupe
dedupe_sound zero taken made_up nick short made_short = ground arith
dedupe_sound (suc n) taken made_up nick short made_short =
    let rest = dedupe_sound n taken made_up (tweak nick) (length-tweak nick short) made_short in
    ground arith

dedupe_of_free :
    (n : ℕ) (taken : Bytes → Bool) (made_up nick : Bytes)
    → is_free taken nick ≡ true
    → dedupe n taken made_up nick ≡ (nick, false)
unfolding dedupe
dedupe_of_free zero taken made_up nick h = rw h refl
dedupe_of_free (suc n) taken made_up nick h = rw h refl

tweak_short : (nick : Bytes) → length nick < 23 → tweak nick ≡ nick ++ b'_' ∷ []
unfolding tweak
tweak_short [] h = refl
tweak_short (c ∷ s) h = ground arith

dedupe_step :
    (n : ℕ) (taken : Bytes → Bool) (made_up nick : Bytes)
    → is_free taken nick ≡ false
    → length nick < 23
    → dedupe (suc n) taken made_up nick ≡ dedupe n taken made_up (nick ++ b'_' ∷ [])
unfolding dedupe
dedupe_step n taken made_up nick h l = rw (h, tweak_short nick l) refl

dedupe_least_n :
    (k n : ℕ) (taken : Bytes → Bool) (made_up nick : Bytes)
    → k ≤ n
    → length nick + k ≤ 23
    → ((j : ℕ) → j < k → is_free taken (nick ++ replicate j b'_') ≡ false)
    → is_free taken (nick ++ replicate k b'_') ≡ true
    → dedupe n taken made_up nick ≡ (nick ++ replicate k b'_', false)
dedupe_least_n zero n taken made_up nick h l busy free =
    rw (append-nil nick) (dedupe_of_free n taken made_up nick (rw (append-nil nick) at free))
dedupe_least_n (suc k) zero taken made_up nick h l busy free = absurd (omega arith)
dedupe_least_n (suc k) (suc n) taken made_up nick h l busy free =
    dedupe_step n taken made_up nick (rw (append-nil nick) at (busy 0 (omega arith))) (omega arith)
    ∙ rw (append_assoc nick (b'_' ∷ []) (replicate k b'_')) at (
        dedupe_least_n k n taken made_up (nick ++ b'_' ∷ []) (omega arith)
          (omega (arith, length-append nick (b'_' ∷ [])))
          (λ j p.
            rw (append_assoc nick (b'_' ∷ []) (replicate j b'_')) (busy (suc j) (omega arith)))
          (rw (append_assoc nick (b'_' ∷ []) (replicate k b'_')) free))

-- If some number of underscores behind the nick makes it free, and it stays within 23 characters,
-- `nick_dedupe` adds the least such number and gives no warning.
pub dedupe_least :
    (k : ℕ) (taken : Bytes → Bool) (made_up nick : Bytes)
    → length nick + k ≤ 23
    → ((j : ℕ) → j < k → is_free taken (nick ++ replicate j b'_') ≡ false)
    → is_free taken (nick ++ replicate k b'_') ≡ true
    → dedupe inf_protection taken made_up nick ≡ (nick ++ replicate k b'_', false)
dedupe_least k taken made_up nick l =
    dedupe_least_n k inf_protection taken made_up nick (omega arith) l
