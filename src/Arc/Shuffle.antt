-- ===== src/Arc/Shuffle.antt =====
-- lib/arc.c: the table `S` of the generator.
use bitl_steam.Common.{
  ℕ, zero, suc, ◌+◌, ◌%◌, ◌<◌, ◌≤◌, ◌≡◌, ◌≢◌, refl, ap, sym, ◌∙◌, [], ◌∷◌, Bytes, lt_cases, length,
  length-set, get_or, get_or-set, get_or-set_other, set, ◌==◌, ==_iff, if◌then◌else◌, arith,
  Bool-cases, inl, inr,
}
use bitl_steam.Arc.{
  ArcState, swapped, advance, output, discard, identity, key_rounds, cycles, keymaker,
}

abbrev pub count : ℕ → Bytes → ℕ
count a [] = 0
count a (x ∷ xs) = (if x == a then 1 else 0) + count a xs

-- 1 where the two are the same.
abbrev is_one : ℕ → ℕ → ℕ
is_one a x = if x == a then 1 else 0

count-set :
    (a : ℕ) (xs : Bytes) (i v : ℕ)
    → i < length xs
    → count a (set xs i v) + is_one a (get_or xs i 0) ≡ count a xs + is_one a v
count-set a [] i v h = absurd (omega arith)
count-set a (x ∷ xs) zero v h = omega arith
count-set a (x ∷ xs) (suc i) v h = omega (arith, count-set a xs i v (omega arith))

count-swapped :
    (a : ℕ) (s : Bytes) (i j : ℕ)
    → i < length s
    → j < length s
    → count a (swapped s i j) ≡ count a s
unfolding swapped
count-swapped a s i j hi hj =
    let first = count-set a s i (get_or s j 0) hi in
    let second =
      count-set a (set s i (get_or s j 0)) j (get_or s i 0)
        (omega (arith, length-set s i (get_or s j 0))) in
    elim (Bool-cases (i == j)) [
      | inl same ↦
          let e : i ≡ j = (==_iff i j).0 same in
          let there : get_or (set s i (get_or s j 0)) j 0 ≡ get_or s j 0 =
            ap (λ k. get_or (set s i (get_or s j 0)) k 0) (sym e)
            ∙ get_or-set s i (get_or s j 0) 0 hi in
          omega (arith, first, second, ap (is_one a) there)
      | inr other ↦
          let ne : i ≢ j = (λ e. ground arith) in
          omega (arith, first, second, ap (is_one a) (get_or-set_other s i j (get_or s j 0) 0 ne))
    ]

-- A table of 256 entries, each number as often as in the identity.
pub record IsShuffle (s : Bytes) : Type 0 where
  pub size : length s ≡ 256
  pub entries : (a : ℕ) → count a s ≡ count a (identity 256 0)

swapped-IsShuffle :
    (s : Bytes) (i j : ℕ) → i < 256 → j < 256 → IsShuffle s → IsShuffle (swapped s i j)
swapped-IsShuffle s i j hi hj h = record {
  size =
      unfold swapped in
      omega (
        arith,
        length-set s i (get_or s j 0),
        length-set (set s i (get_or s j 0)) j (get_or s i 0),
        h.size,
      );
  entries =
      λ a. count-swapped a s i j (omega (arith, h.size)) (omega (arith, h.size)) ∙ h.entries a;
}

length-identity : (n i : ℕ) → length (identity n i) ≡ n
unfolding identity
length-identity zero i = refl
length-identity (suc n) i = omega (arith, length-identity n (suc i))

key_rounds-IsShuffle :
    (n : ℕ) (key : Bytes) (i j : ℕ) (s : Bytes)
    → n + i ≤ 256
    → IsShuffle s
    → IsShuffle (key_rounds n key i j s)
unfolding key_rounds
key_rounds-IsShuffle zero key i j s le h = h
key_rounds-IsShuffle (suc n) key i j s le h =
    let j' = (j + get_or s i 0 + get_or key (i % length key) 0) % 256 in
    key_rounds-IsShuffle n key (suc i) j' (swapped s i j') (omega arith)
      (swapped-IsShuffle s i j' (omega arith) (omega arith) h)

advance-IsShuffle : (st : ArcState) → IsShuffle st.s → IsShuffle (ArcState.s (advance st))
unfolding advance
advance-IsShuffle st h = swapped-IsShuffle st.s ((st.i + 1) % 256) _ (omega arith) (omega arith) h

discard-IsShuffle : (n : ℕ) (st : ArcState) → IsShuffle st.s → IsShuffle (ArcState.s (discard n st))
unfolding discard
discard-IsShuffle zero st h = h
discard-IsShuffle (suc n) st h = discard-IsShuffle n (advance st) (advance-IsShuffle st h)

count-identity : (a n i : ℕ) → n + i ≤ a → count a (identity n i) ≡ 0
unfolding identity
count-identity a zero i h = refl
count-identity a (suc n) i h = (let rest = count-identity a n (suc i) (omega arith) in ground arith)

count-get_or : (s : Bytes) (i : ℕ) → i < length s → 0 < count (get_or s i 0) s
count-get_or [] i h = absurd (omega arith)
count-get_or (x ∷ s) zero h = ground arith
count-get_or (x ∷ s) (suc i) h = omega (arith, count-get_or s i (omega arith))

IsShuffle-bytes : (s : Bytes) (i : ℕ) → IsShuffle s → i < 256 → get_or s i 0 < 256
IsShuffle-bytes s i h lt =
    let a = get_or s i 0 in
    elim (lt_cases a 256) [
      | inl small ↦ small
      | inr large ↦ absurd (
          omega (
            arith,
            count-get_or s i (omega (arith, h.size)),
            h.entries a,
            count-identity a 256 0 (omega arith),
          ))
    ]

-- Whatever the key and however many bytes were taken, the table holds each number from 0 to 255
-- once, and the next byte is a byte.
pub keymaker-IsShuffle :
    (key : Bytes) (n : ℕ)
    → IsShuffle (ArcState.s (discard n (keymaker key)))
      × (output (advance (discard n (keymaker key))) < 256)
unfolding keymaker output
keymaker-IsShuffle key n =
    let start : IsShuffle (identity 256 0) = record {
      size = length-identity 256 0;
      entries = λ a. refl;
    } in
    let made = key_rounds-IsShuffle 256 key 0 0 (identity 256 0) (omega arith) start in
    let st₀ : ArcState = record { s = key_rounds 256 key 0 0 (identity 256 0); i = 0; j = 0 } in
    let now = discard-IsShuffle n (discard cycles st₀) (discard-IsShuffle cycles st₀ made) in
    (now, IsShuffle-bytes _ _ (advance-IsShuffle _ now) (omega arith))
