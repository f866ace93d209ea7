-- ===== src/Glib.antt =====
-- GLib, which the program links against, as what the program relies on: the documented behaviour of
-- string comparison and of hash tables. The functions are parameters of the models.
pub mod Ascii
pub mod Assoc
pub mod Slist
pub mod Sorted
pub mod Members
use bitl_steam.Common.{
  Option, none, some, take, ℕ, strcmp_eq, if◌then◌else◌, ℕ, ◌≡◌, ◌↔◌, Bool, true, false, Bytes, map,
  tolower, refl, sym, ◌∙◌, arith,
}

pub record Glib : Type 0 where
  -- `g_strcasecmp(a, b) == 0`
  pub strcasecmp : Bytes → Bytes → Bool
  -- "A case-insensitive string comparison, corresponding to the standard strcasecmp() function".
  pub strcasecmp_iff : (a b : Bytes) → (strcasecmp a b ≡ true) ↔ (map tolower a ≡ map tolower b)
  -- `g_strncasecmp(a, b, n) == 0`: the same for at most the first `n` characters.
  pub strncasecmp : Bytes → Bytes → ℕ → Bool
  pub strncasecmp_iff :
      (a b : Bytes) (n : ℕ)
      → (strncasecmp a b n ≡ true) ↔ (map tolower (take n a) ≡ map tolower (take n b))

-- A `GHashTable` with string keys that are compared by `g_str_equal`, as a type of tables and the
-- documented effect of its operations.
pub record HashTable (T V : Type 0) : Type 0 where
  pub lookup : T → Bytes → Option V
  pub replace : T → Bytes → V → T
  pub remove : T → Bytes → T
  pub lookup-replace :
      (t : T) (k j : Bytes) (v : V)
      → lookup (replace t k v) j ≡ (if strcmp_eq k j then some v else lookup t j)
  pub lookup-remove :
      (t : T) (k j : Bytes) → lookup (remove t k) j ≡ (if strcmp_eq k j then none else lookup t j)

module _ (g : Glib) where
  pub strcasecmp_refl : (a : Bytes) → g.strcasecmp a a ≡ true
  strcasecmp_refl a = (g.strcasecmp_iff a a).1 refl

  pub strcasecmp_symm : (a b : Bytes) → g.strcasecmp a b ≡ true → g.strcasecmp b a ≡ true
  strcasecmp_symm a b h = (g.strcasecmp_iff b a).1 (sym ((g.strcasecmp_iff a b).0 h))

  pub strcasecmp_trans :
      (a b c : Bytes) → g.strcasecmp a b ≡ true → g.strcasecmp b c ≡ true → g.strcasecmp a c ≡ true
  strcasecmp_trans a b c h k =
      (g.strcasecmp_iff a c).1 ((g.strcasecmp_iff a b).0 h ∙ (g.strcasecmp_iff b c).0 k)

  pub strcasecmp_comm : (a b : Bytes) → g.strcasecmp a b ≡ g.strcasecmp b a
  strcasecmp_comm a b = ground (arith, strcasecmp_symm a b, strcasecmp_symm b a)
