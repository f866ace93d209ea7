-- ===== src/Nick/Case.antt =====
-- nick.c: `nick_lc` and `nick_uc`.
use bitl_steam.Common.{
  ℕ, ◌<◌, ◌≤◌, ◌≡◌, ◌≢◌, refl, true, false, [], ◌∷◌, ◌++◌, Bytes, arith, All, map,
}
use bitl_steam.Common.Outcome.{done, fault, ◌>>=◌}
use bitl_steam.Nick.{is_nick_char, lower, upper, convert, nick_lc, nick_uc}
use bitl_steam.Nick.Chars.{Cased-of, IsNickText, lower_of_other}

-- A table that has an entry for each character of the text converts all of it.
pub convert-map :
    (tab : ℕ → ℕ) (s : Bytes)
    → All (λ c. (c < 128) × (tab c ≢ 0)) s
    → convert tab s ≡ done (true, map tab s)
unfolding convert
convert-map tab [] h = refl
convert-map tab (c ∷ s) ((p, q), h) = ground (arith, convert-map tab s h)

lower-All : (s : Bytes) → IsNickText s → All (λ c. (c < 128) × (lower c ≢ 0)) s
lower-All [] h = tt
lower-All (c ∷ s) ((p, k), h) = let i = Cased-of c p k in ((i.ascii, i.lower_some), lower-All s h)

upper-All : (s : Bytes) → IsNickText s → All (λ c. (c < 128) × (upper c ≢ 0)) s
upper-All [] h = tt
upper-All (c ∷ s) ((p, k), h) = let i = Cased-of c p k in ((i.ascii, i.upper_some), upper-All s h)

pub nick_lc-map : (s : Bytes) → IsNickText s → nick_lc s ≡ done (true, map lower s)
unfolding nick_lc
nick_lc-map s h = convert-map lower s (lower-All s h)

pub nick_uc-map : (s : Bytes) → IsNickText s → nick_uc s ≡ done (true, map upper s)
unfolding nick_uc
nick_uc-map s h = convert-map upper s (upper-All s h)

pub map-IsNickText-lower : (s : Bytes) → IsNickText s → IsNickText (map lower s)
map-IsNickText-lower [] h = tt
map-IsNickText-lower (c ∷ s) ((p, k), h) =
    let i = Cased-of c p k in
    ((omega (arith, i.lower_some), i.lower_allowed), map-IsNickText-lower s h)

map-IsNickText-upper : (s : Bytes) → IsNickText s → IsNickText (map upper s)
map-IsNickText-upper [] h = tt
map-IsNickText-upper (c ∷ s) ((p, k), h) =
    let i = Cased-of c p k in
    ((omega (arith, i.upper_some), i.upper_allowed), map-IsNickText-upper s h)

map-lower-upper : (s : Bytes) → IsNickText s → map lower (map upper s) ≡ map lower s
map-lower-upper [] h = refl
map-lower-upper (c ∷ s) ((p, k), h) =
    let i = Cased-of c p k in rw (i.lower_upper, map-lower-upper s h) refl

map-upper-lower : (s : Bytes) → IsNickText s → map upper (map lower s) ≡ map upper s
map-upper-lower [] h = refl
map-upper-lower (c ∷ s) ((p, k), h) =
    let i = Cased-of c p k in rw (i.upper_lower, map-upper-lower s h) refl

map-lower-lower : (s : Bytes) → IsNickText s → map lower (map lower s) ≡ map lower s
map-lower-lower [] h = refl
map-lower-lower (c ∷ s) ((p, k), h) =
    let i = Cased-of c p k in rw (i.lower_lower, map-lower-lower s h) refl

-- On a text of allowed characters both conversions succeed. Lowering a second time, or after the
-- text was put in upper case, gives the lower case of the text, and likewise for upper case.
pub nick_lc-nick_uc :
    (s : Bytes)
    → IsNickText s
    → ((nick_lc s >>= λ r. nick_lc r.1) ≡ nick_lc s)
      × ((nick_uc s >>= λ r. nick_lc r.1) ≡ nick_lc s)
      × ((nick_lc s >>= λ r. nick_uc r.1) ≡ nick_uc s)
nick_lc-nick_uc s h = (
  rw (nick_lc-map s h, nick_lc-map _ (map-IsNickText-lower s h), map-lower-lower s h) refl,
  rw
      (
        nick_lc-map s h,
        nick_uc-map s h,
        nick_lc-map _ (map-IsNickText-upper s h),
        map-lower-upper s h,
      )
      refl,
  rw
      (
        nick_lc-map s h,
        nick_uc-map s h,
        nick_uc-map _ (map-IsNickText-lower s h),
        map-upper-lower s h,
      )
      refl,
)

-- A byte from 128 up, behind allowed characters only, makes `nick_lc` read outside its table.
pub nick_lc-high_byte :
    (s : Bytes) (c : ℕ) (rest : Bytes) → IsNickText s → 128 ≤ c → nick_lc (s ++ c ∷ rest) ≡ fault
unfolding nick_lc convert
nick_lc-high_byte [] c rest h p = ground arith
nick_lc-high_byte (d ∷ s) c rest ((p, k), h) q =
    let i = Cased-of d p k in ground (arith, i.ascii, i.lower_some, nick_lc-high_byte s c rest h q)

-- An ASCII character that is not allowed stops `nick_lc`, which returns 0 with the text before it
-- lowered.
pub nick_lc_stops :
    (s : Bytes) (c : ℕ) (rest : Bytes)
    → IsNickText s
    → 0 < c
    → c < 128
    → is_nick_char c ≡ false
    → nick_lc (s ++ c ∷ rest) ≡ done (false, map lower s ++ c ∷ rest)
unfolding nick_lc convert
nick_lc_stops [] c rest h p l k = ground (arith, lower_of_other c p l k)
nick_lc_stops (d ∷ s) c rest ((p, e), h) q l k =
    let i = Cased-of d p e in ground (arith, i.ascii, i.lower_some, nick_lc_stops s c rest h q l k)
