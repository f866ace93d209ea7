-- ===== src/Settings/Nodes.antt =====
-- set.c: finding a node and writing through a pointer to it.
use mathlib.Core.Option
use mathlib.Core.Option.{some-injective}
use mathlib.Core.Path.{subst}
use bitl_steam.Common.{
  ℕ, zero, suc, ◌≡◌, refl, Bool, true, false, Option, none, some, List, [], ◌∷◌, Bytes, arith, ◌==◌,
  if◌then◌else◌, get_elem?, Bool-cases, ◌⊎◌, ◌<◌, inl, inr,
}
use bitl_steam.Glib.{Glib}
use bitl_steam.Settings.{Setting, modify, matches, find, later}

module _ {E D : Type 0} where
  pub get_elem?-modify :
      (l : List (Setting E D)) (i j : ℕ) (f : Setting E D → Setting E D)
      → get_elem? (modify l i f) j
        ≡ (if i == j then Option.map f (get_elem? l j) else get_elem? l j)
  get_elem?-modify [] i j f = ground arith
  get_elem?-modify (s ∷ l) zero zero f = refl
  get_elem?-modify (s ∷ l) zero (suc j) f = ground arith
  get_elem?-modify (s ∷ l) (suc i) zero f = ground arith
  get_elem?-modify (s ∷ l) (suc i) (suc j) f = ground (arith, get_elem?-modify l i j f)

-- A write that leaves the names of a node alone.
pub record KeepsNames {E D : Type 0} (f : Setting E D → Setting E D) : Type 0 where
  pub key : (s : Setting E D) → (f s).key ≡ s.key
  pub old_key : (s : Setting E D) → (f s).old_key ≡ s.old_key

-- What a search shows of the list behind a write at place `i`.
abbrev pub written :
    {E D : Type 0} → ℕ → (Setting E D → Setting E D) → ℕ × Setting E D → ℕ × Setting E D
written i f (j, s) = (j, if i == j then f s else s)

module _ {E D : Type 0} (f : Setting E D → Setting E D) where
  written_head :
      (o : Option (ℕ × Setting E D))
      → Option.map later o ≡ Option.map (written zero f) (Option.map later o)
  written_head none = refl
  written_head (some (j, s)) = ground arith

  written_tail :
      (i : ℕ) (o : Option (ℕ × Setting E D))
      → Option.map later (Option.map (written i f) o)
        ≡ Option.map (written (suc i) f) (Option.map later o)
  written_tail i none = refl
  written_tail i (some (j, s)) = ground arith

module _ (g : Glib) {E D : Type 0} where
  pub matches_keeps :
      (f : Setting E D → Setting E D)
      → KeepsNames f
      → (s : Setting E D) (k : Bytes) → matches g (f s) k ≡ matches g s k
  unfolding matches
  matches_keeps f n s k = rw (n.key s, n.old_key s)

  -- A search finds the node that it found before the write, as the write left it.
  pub find-modify :
      (l : List (Setting E D)) (i : ℕ) (f : Setting E D → Setting E D) (k : Bytes)
      → KeepsNames f
      → find g (modify l i f) k ≡ Option.map (written i f) (find g l k)
  unfolding find
  find-modify [] i f k n = refl
  find-modify (s ∷ l) zero f k n = rw (matches_keeps f n s k) (elim (Bool-cases (matches g s k)) [
    | inl e ↦ rw e refl
    | inr e ↦ rw e (written_head f (find g l k))
  ])
  find-modify (s ∷ l) (suc i) f k n =
      rw (find-modify l i f k n) (elim (Bool-cases (matches g s k)) [
        | inl e ↦ rw e (ground arith)
        | inr e ↦ rw e (written_tail f i (find g l k))
      ])

  find_found :
      (t : Setting E D) (l : List (Setting E D)) (k : Bytes) (b : Bool)
      (o : Option (ℕ × Setting E D)) {i : ℕ} {s : Setting E D}
      → (if b then some (0, t) else Option.map later o) ≡ some (i, s)
      → ((i ≡ 0) × (t ≡ s) × (b ≡ true)) ⊎ ((j : ℕ) × (i ≡ suc j) × (o ≡ some (j, s)) × (b ≡ false))
  find_found t l k true o h = inl (ground arith)
  find_found t l k false none h = cc
  find_found t l k false (some (j, s)) h = inr (j, ground arith, ground arith, refl)

  -- What is found stands where the search says, and has the key.
  pub find_sound :
      (l : List (Setting E D)) (k : Bytes) {i : ℕ} {s : Setting E D}
      → find g l k ≡ some (i, s)
      → (get_elem? l i ≡ some s) × (matches g s k ≡ true)
  unfolding find
  find_sound [] k h = cc
  find_sound (t ∷ l) k h = elim (find_found t l k (matches g t k) (find g l k) h) [
    | inl (e, d, b) ↦ rw (e, ← d) (refl, b)
    | inr (j, e, o, b) ↦ rw e (find_sound l k o)
  ]

  -- It is the first such node.
  pub find_first :
      (l : List (Setting E D)) (k : Bytes) {i : ℕ} {s : Setting E D}
      → find g l k ≡ some (i, s)
      → (j : ℕ) (t : Setting E D) → j < i
      → get_elem? l j ≡ some t
      → matches g t k ≡ false
  unfolding find
  find_first [] k h j t lt e = cc
  find_first (r ∷ l) k h zero t lt e = elim (find_found r l k (matches g r k) (find g l k) h) [
    | inl (p, d, b) ↦ absurd (omega arith)
    | inr (i', p, o, b) ↦ subst (λ x. matches g x k ≡ false) (some-injective r t e) b
  ]
  find_first (r ∷ l) k h (suc j) t lt e = elim (find_found r l k (matches g r k) (find g l k) h) [
    | inl (p, d, b) ↦ absurd (omega arith)
    | inr (i', p, o, b) ↦ find_first l k o j t (omega arith) e
  ]
