-- ===== src/Glib/Slist.antt =====
-- GLib's singly linked lists, as what the program relies on.
use bitl_steam.Common.{◌≡◌, ◌≢◌, Bool, List, [], ◌∷◌, ◌++◌, All, if◌then◌else◌}
use bitl_steam.Nick.{Sign, minus, plus}

-- A property of the first element of a list, if there is one.
abbrev pub Head {ℓ κ} : {A : Type ℓ} → (A → Type κ) → List A → Type κ
Head P [] = Unit
Head P (y ∷ l) = P y

pub record Slist (A : Type 0) : Type 0 where
  -- `g_slist_insert_sorted`: "inserts a new element into the list, using the given comparison
  -- function to determine its position": behind elements that do not come after it, and not behind
  -- one that comes before.
  pub insert_sorted : (A → A → Sign) → A → List A → List A
  pub insert_sorted_lem :
      (cmp : A → A → Sign) (x : A) (l : List A)
      → (pre post : List A) × (l ≡ pre ++ post)
        × (insert_sorted cmp x l ≡ pre ++ x ∷ post)
        × All (λ y. cmp x y ≢ minus) pre
        × Head (λ y. cmp x y ≢ plus) post
  -- `g_slist_remove`: "removes an element from a list. If two elements contain the same data, only
  -- the first is removed. If none of the elements contain the data, the list is unchanged." The
  -- test says which elements contain the data.
  pub remove : (A → Bool) → List A → List A
  pub remove_nil : (p : A → Bool) → remove p [] ≡ []
  pub remove_cons :
      (p : A → Bool) (y : A) (l : List A) → remove p (y ∷ l) ≡ (if p y then l else y ∷ remove p l)
