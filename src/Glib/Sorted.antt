-- ===== src/Glib/Sorted.antt =====
-- Lists with insertion in order, for runs and for concrete inputs of theorems.
use bitl_steam.Common.{
  ◌≡◌, ◌≢◌, refl, Bool, true, false, List, [], ◌∷◌, ◌++◌, All, if◌then◌else◌, Bool-cases, inl, inr,
  ap,
}
use bitl_steam.Nick.{Sign, minus, equal, plus}
use bitl_steam.Glib.Slist.{Slist, Head}

abbrev is_plus : Sign → Bool
is_plus minus = false
is_plus equal = false
is_plus plus = true

plus_not_minus : (s : Sign) → is_plus s ≡ true → s ≢ minus
plus_not_minus minus h = cc
plus_not_minus equal h = cc
plus_not_minus plus h = λ e. cc

not_plus : (s : Sign) → is_plus s ≡ false → s ≢ plus
not_plus minus h = λ e. cc
not_plus equal h = λ e. cc
not_plus plus h = cc

module _ {A : Type 0} where
  pub insert_sorted : (A → A → Sign) → A → List A → List A
  insert_sorted cmp x [] = x ∷ []
  insert_sorted cmp x (y ∷ l) =
      let rest = insert_sorted cmp x l in if is_plus (cmp x y) then y ∷ rest else x ∷ y ∷ l

  pub remove : (A → Bool) → List A → List A
  remove p [] = []
  remove p (y ∷ l) = let rest = remove p l in if p y then l else y ∷ rest

  pub insert_sorted_lem :
      (cmp : A → A → Sign) (x : A) (l : List A)
      → (pre post : List A) × (l ≡ pre ++ post)
        × (insert_sorted cmp x l ≡ pre ++ x ∷ post)
        × All (λ y. cmp x y ≢ minus) pre
        × Head (λ y. cmp x y ≢ plus) post
  unfolding insert_sorted
  insert_sorted_lem cmp x [] = ([], [], refl, refl, tt, tt)
  insert_sorted_lem cmp x (y ∷ l) = elim (Bool-cases (is_plus (cmp x y))) [
    | inl e ↦
        let (pre, post, old, new, before, behind) = insert_sorted_lem cmp x l in
        rw e (
          y ∷ pre,
          post,
          ap (λ r. y ∷ r) old,
          ap (λ r. y ∷ r) new,
          (plus_not_minus (cmp x y) e, before),
          behind,
        )
    | inr e ↦ rw e ([], y ∷ l, refl, refl, tt, not_plus (cmp x y) e)
  ]

unfoldable pub slist : {A : Type 0} → Slist A
unfolding insert_sorted remove
slist = record {
  insert_sorted = insert_sorted;
  insert_sorted_lem = insert_sorted_lem;
  remove = remove;
  remove_nil = λ p. refl;
  remove_cons = λ p y l. refl;
}
