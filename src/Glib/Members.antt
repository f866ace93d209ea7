-- ===== src/Glib/Members.antt =====
-- GLib's lists as sets of what a number identifies, such as an address.
use bitl_steam.Common.{
  ℕ, ◌≡◌, refl, ap, Bool, false, not, ◌&&◌, ◌||◌, List, [], ◌∷◌, ◌++◌, ◌==◌, arith, Bool-cases, inl,
  inr,
}
use bitl_steam.Glib.Slist.{Slist}
use bitl_steam.Nick.{Sign}

module _ {A : Type 0} (id : A → ℕ) where
  unfoldable pub mem : List A → ℕ → Bool
  mem [] i = false
  mem (x ∷ l) i = id x == i || mem l i

  -- Nothing is listed twice.
  abbrev pub Once : List A → Type 0
  Once [] = Unit
  Once (x ∷ l) = (mem l (id x) ≡ false) × Once l

  pub mem-append : (l r : List A) (i : ℕ) → mem (l ++ r) i ≡ (mem l i || mem r i)
  unfolding mem
  mem-append [] r i = refl
  mem-append (x ∷ l) r i = let rest = mem-append l r i in ground arith

  Once-insert :
      (l r : List A) (x : A) → Once (l ++ r) → mem (l ++ r) (id x) ≡ false → Once (l ++ x ∷ r)
  unfolding mem
  Once-insert [] r x d h = (h, d)
  Once-insert (y ∷ l) r x (n, d) h = (
    let a = mem-append l r (id y) in let b = mem-append l (x ∷ r) (id y) in ground arith,
    Once-insert l r x d (ground arith),
  )

  module _ (gl : Slist A) where
    pub mem-insert_sorted :
        (cmp : A → A → Sign) (x : A) (l : List A) (i : ℕ)
        → mem (gl.insert_sorted cmp x l) i ≡ (id x == i || mem l i)
    unfolding mem
    mem-insert_sorted cmp x l i =
        let (pre, post, old, new, before, behind) = gl.insert_sorted_lem cmp x l in
        let was : mem l i ≡ mem (pre ++ post) i = ap (λ l. mem l i) old in
        let a = mem-append pre post i in
        let b = mem-append pre (x ∷ post) i in rw new (ground arith)

    pub insert_sorted-Once :
        (cmp : A → A → Sign) (x : A) (l : List A)
        → mem l (id x) ≡ false
        → Once l
        → Once (gl.insert_sorted cmp x l)
    insert_sorted-Once cmp x l h d =
        let (pre, post, old, new, before, behind) = gl.insert_sorted_lem cmp x l in
        rw new (Once-insert pre post x (rw old at d) (rw old at h))

    pub mem-remove :
        (l : List A) (i j : ℕ)
        → Once l
        → mem (gl.remove (λ x. id x == i) l) j ≡ (not (i == j) && mem l j)
    unfolding mem
    mem-remove [] i j d = rw (gl.remove_nil (λ x. id x == i)) (ground arith)
    mem-remove (x ∷ l) i j (n, d) =
        let rest = mem-remove l i j d in
        let same : id x ≡ j → mem l (id x) ≡ mem l j = λ e. ap (mem l) e in
        rw (gl.remove_cons (λ x. id x == i) x l) (elim (Bool-cases (id x == i)) [
          | inl e ↦ rw e (ground arith)
          | inr e ↦ rw e (ground arith)
        ])

    pub remove-Once : (l : List A) (i : ℕ) → Once l → Once (gl.remove (λ x. id x == i) l)
    remove-Once [] i d = rw (gl.remove_nil (λ x. id x == i)) tt
    remove-Once (x ∷ l) i (n, d) =
        rw (gl.remove_cons (λ x. id x == i) x l) (elim (Bool-cases (id x == i)) [
          | inl e ↦ rw e d
          | inr e ↦ rw e (let rest = mem-remove l i (id x) d in (ground arith), remove-Once l i d)
        ])
