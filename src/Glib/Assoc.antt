-- ===== src/Glib/Assoc.antt =====
-- A hash table as an association list, for runs and for concrete inputs of theorems.
use bitl_steam.Common.{
  ◌≡◌, refl, Option, none, some, List, [], ◌∷◌, Bytes, arith, strcmp_eq, strcmp_eq_iff,
  if◌then◌else◌,
}
use bitl_steam.Glib.{HashTable}

module _ {V : Type 0} where
  pub lookup : List (Bytes × V) → Bytes → Option V
  lookup [] k = none
  lookup ((j, v) ∷ t) k = if strcmp_eq j k then some v else lookup t k

  pub remove : List (Bytes × V) → Bytes → List (Bytes × V)
  remove [] k = []
  remove ((j, v) ∷ t) k = let rest = remove t k in if strcmp_eq k j then rest else (j, v) ∷ rest

  pub lookup-replace :
      (t : List (Bytes × V)) (k j : Bytes) (v : V)
      → lookup ((k, v) ∷ t) j ≡ (if strcmp_eq k j then some v else lookup t j)
  unfolding lookup
  lookup-replace t k j v = refl

  pub lookup-remove :
      (t : List (Bytes × V)) (k j : Bytes)
      → lookup (remove t k) j ≡ (if strcmp_eq k j then none else lookup t j)
  unfolding lookup remove
  lookup-remove [] k j = ground arith
  lookup-remove ((i, v) ∷ t) k j = ground (
    arith,
    lookup-remove t k j,
    (strcmp_eq_iff k i).0,
    (strcmp_eq_iff i j).0,
    (strcmp_eq_iff k j).0,
    (strcmp_eq_iff i j).1,
    (strcmp_eq_iff k j).1,
    (strcmp_eq_iff k i).1,
  )

unfoldable pub assoc : {V : Type 0} → HashTable (List (Bytes × V)) V
unfolding lookup remove
assoc = record {
  lookup = lookup;
  replace = λ t k v. (k, v) ∷ t;
  remove = remove;
  lookup-replace = lookup-replace;
  lookup-remove = lookup-remove;
}
