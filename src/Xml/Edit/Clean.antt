-- ===== src/Xml/Edit/Clean.antt =====
-- lib/xmltree.c: xt_cleanup.
use bitl_steam.Common.{ℕ, ◌≡◌, refl, ap, ◌∙◌, true, false, Option, none, some, Bool-cases, inl, inr}
use bitl_steam.Xml.{Node, Nodes, node, nil, cons}
use bitl_steam.Xml.Edit.{deeper, is_seen, clean, clean_all, xt_cleanup}

-- No element that is down to `depth` below the node was seen: `some none` is without a limit.
unfoldable mutual
  pub Fresh : Option (Option ℕ) → Node → Type 0
  Fresh none n = Unit
  Fresh (some depth) (node name attrs text complete seen children) =
      FreshAll (deeper depth) children

  pub FreshAll : Option (Option ℕ) → Nodes → Type 0
  FreshAll depth nil = Unit
  FreshAll depth (cons c l) = (is_seen c ≡ false) × Fresh depth c × FreshAll depth l

is_seen-clean : (depth : Option (Option ℕ)) (n : Node) → is_seen (clean depth n) ≡ is_seen n
unfolding clean
is_seen-clean none n = refl
is_seen-clean (some depth) (node name attrs text complete seen children) = refl

mutual
  unfolding clean Fresh

  clean-Fresh : (depth : Option (Option ℕ)) (n : Node) → Fresh depth (clean depth n)
  clean-Fresh none n = tt
  clean-Fresh (some depth) (node name attrs text complete seen children) =
      clean_all-Fresh (deeper depth) children

  clean_all-Fresh : (depth : Option (Option ℕ)) (l : Nodes) → FreshAll depth (clean_all depth l)
  clean_all-Fresh depth nil = tt
  clean_all-Fresh depth (cons c l) = elim (Bool-cases (is_seen c)) [
    | inl e ↦ rw e (clean_all-Fresh depth l)
    | inr e ↦ rw e (is_seen-clean depth c ∙ e, clean-Fresh depth c, clean_all-Fresh depth l)
  ]

mutual
  unfolding clean Fresh

  Fresh-clean : (depth : Option (Option ℕ)) (n : Node) → Fresh depth n → clean depth n ≡ n
  Fresh-clean none n h = refl
  Fresh-clean (some depth) (node name attrs text complete seen children) h =
      ap (node name attrs text complete seen) (FreshAll-clean_all (deeper depth) children h)

  FreshAll-clean_all :
      (depth : Option (Option ℕ)) (l : Nodes) → FreshAll depth l → clean_all depth l ≡ l
  FreshAll-clean_all depth nil h = refl
  FreshAll-clean_all depth (cons c l) (e, f, fs) =
      rw (e, Fresh-clean depth c f, FreshAll-clean_all depth l fs) refl

-- After a cleanup no element that was seen is left down to the depth, and a second cleanup changes
-- nothing; a root that was seen is gone.
pub xt_cleanup-Fresh :
    (root : Node) (depth : Option ℕ)
    → (is_seen root ≡ true → xt_cleanup (some root) depth ≡ none)
      × (is_seen root ≡ false
          → (n : Node) × (xt_cleanup (some root) depth ≡ some n)
            × Fresh (some depth) n
            × (xt_cleanup (some n) depth ≡ some n))
unfolding xt_cleanup
xt_cleanup-Fresh root depth = (
  λ e. rw e refl,
  λ e. (
    clean (some depth) root,
    rw e refl,
    clean-Fresh (some depth) root,
    rw (is_seen-clean (some depth) root, e)
        (ap some
          (Fresh-clean (some depth) (clean (some depth) root) (clean-Fresh (some depth) root))),
  ),
)
