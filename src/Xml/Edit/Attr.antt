-- ===== src/Xml/Edit/Attr.antt =====
-- lib/xmltree.c: attributes.
use bitl_steam.Common.{
  ◌≡◌, refl, ap, sym, ◌∙◌, true, false, false≢true, none, some, List, [], ◌∷◌, ◌++◌, Bytes, codes,
  strcmp_eq, strcmp_eq_iff, arith, All, if◌then◌else◌, Bool-cases, inl, inr,
}
use bitl_steam.Common.Outcome.{done, fault}
use bitl_steam.Glib.{Glib, strcasecmp_refl}
use bitl_steam.Xml.{Attrs, Node, node, attrs_of, dup_attrs, xt_dup}
use bitl_steam.Xml.Edit.{
  has_key, set_value, add_attr, next_unset, remove_attr, xt_remove_attr, find_value, value_or_end,
  or_prefix, xt_find_attr, xt_add_attr,
}

module _ (g : Glib) where
  -- Keys that are the same up to case are the same.
  abbrev pub KeyMatches : Bytes → Bytes × Bytes → Type 0
  KeyMatches key kv = g.strcasecmp kv.0 key ≡ true → kv.0 ≡ key

  no_match :
      (key : Bytes) (kv : Bytes × Bytes)
      → KeyMatches key kv
      → strcmp_eq kv.0 key ≡ false
      → g.strcasecmp kv.0 key ≡ false
  no_match key kv m h = elim (Bool-cases (g.strcasecmp kv.0 key)) [
    | inl e ↦ absurd (false≢true (sym h ∙ (strcmp_eq_iff kv.0 key).1 (m e)))
    | inr e ↦ e
  ]

  find_value-set_value :
      (l : List (Bytes × Bytes)) (key value : Bytes)
      → All (KeyMatches key) l
      → has_key l key ≡ true
      → find_value g (set_value l key value) key ≡ some value
  unfolding find_value set_value has_key
  find_value-set_value [] key value m h = cc
  find_value-set_value ((k, v) ∷ l) key value (m, ms) h =
      let rest = find_value-set_value l key value ms in
      let same = strcmp_eq_iff k key in
      let hit : k ≡ key → g.strcasecmp k key ≡ true = λ e. rw e (strcasecmp_refl g key) in
      elim (Bool-cases (strcmp_eq k key)) [
        | inl e ↦ rw (e, hit (same.0 e)) refl
        | inr e ↦ rw e (
            let miss : g.strcasecmp k key ≡ false = no_match key (k, v) m e in
            rw miss (rest (ground arith)))
      ]

  find_value-append :
      (l : List (Bytes × Bytes)) (key value : Bytes)
      → All (KeyMatches key) l
      → has_key l key ≡ false
      → find_value g (l ++ (key, value) ∷ []) key ≡ some value
  unfolding find_value has_key
  find_value-append [] key value m h = rw (strcasecmp_refl g key) refl
  find_value-append ((k, v) ∷ l) key value (m, ms) h =
      let miss : g.strcasecmp k key ≡ false = no_match key (k, v) m (ground arith) in
      rw miss (find_value-append l key value ms (ground arith))

  find_value-other :
      (l : List (Bytes × Bytes)) (key value other : Bytes)
      → g.strcasecmp key other ≡ false
      → find_value g (set_value l key value) other ≡ find_value g l other
  unfolding find_value set_value
  find_value-other [] key value other h = refl
  find_value-other ((k, v) ∷ l) key value other h =
      let same = strcmp_eq_iff k key in
      let miss : k ≡ key → g.strcasecmp k other ≡ false =
        λ e. ap (λ k. g.strcasecmp k other) e ∙ h in
      elim (Bool-cases (strcmp_eq k key)) [
        | inl e ↦ rw (e, miss (same.0 e)) refl
        | inr e ↦ rw (e, find_value-other l key value other h) refl
      ]

  find_value-append_other :
      (l : List (Bytes × Bytes)) (key value other : Bytes)
      → g.strcasecmp key other ≡ false
      → find_value g (l ++ (key, value) ∷ []) other ≡ find_value g l other
  unfolding find_value
  find_value-append_other [] key value other h = rw h refl
  find_value-append_other ((k, v) ∷ l) key value other h =
      rw (find_value-append_other l key value other h) refl

  find_value-add_attr :
      (a : Attrs) (key value : Bytes)
      → All (KeyMatches key) a.list
      → find_value g (add_attr a key value).list key ≡ some value
  unfolding add_attr
  find_value-add_attr a key value m = elim (Bool-cases (has_key a.list key)) [
    | inl e ↦ rw e (find_value-set_value a.list key value m e)
    | inr e ↦ rw e (find_value-append a.list key value m e)
  ]

  find_value-add_other :
      (a : Attrs) (key value other : Bytes)
      → g.strcasecmp key other ≡ false
      → find_value g (add_attr a key value).list other ≡ find_value g a.list other
  unfolding add_attr
  find_value-add_other a key value other h = elim (Bool-cases (has_key a.list key)) [
    | inl e ↦ rw e (find_value-other a.list key value other h)
    | inr e ↦ rw e (find_value-append_other a.list key value other h)
  ]

  -- To look for a key that a node does not have, after an attribute was added, reads the value of the
  -- element that ends the array.
  find-end :
      (n : Node) (key value other : Bytes)
      → g.strcasecmp key other ≡ false
      → strcmp_eq other (codes "xmlns") ≡ false
      → find_value g (attrs_of n).list other ≡ none
      → has_key (attrs_of n).list key ≡ false
      → xt_find_attr g (xt_add_attr n key value) other
        ≡ (if next_unset (attrs_of n).behind then fault else done none)
  unfolding xt_add_attr xt_find_attr or_prefix value_or_end
  find-end (node name a text complete seen children) key value other h plain e new =
      rw (find_value-add_other a key value other h, e, plain) (unfold add_attr in rw new refl)

  removed-behind :
      (n : Node) (gone : Bytes)
      → has_key (attrs_of n).list gone ≡ true
      → (attrs_of (xt_remove_attr n gone).1).behind ≡ (attrs_of n).unset ∷ (attrs_of n).behind
  unfolding xt_remove_attr remove_attr
  removed-behind (node name a text complete seen children) gone h = rw h refl

  -- An attribute that is added is found, if no other key is the same but for case, and values of
  -- other keys are found as before, the declarations of namespaces aside. But to look for a key
  -- that a node does not have is undefined after an attribute with a new key was added to it, until
  -- it is copied, if no attribute was removed since the array was made or made larger. If one was
  -- removed just before, it is as it was before that: undefined if the array's end was unset.
  pub xt_find_attr-xt_add_attr :
      (n : Node) (key value : Bytes)
      → All (KeyMatches key) (attrs_of n).list
      → (xt_find_attr g (xt_add_attr n key value) key ≡ done (some value))
        × ((other v : Bytes)
            → g.strcasecmp key other ≡ false
            → find_value g (attrs_of n).list other ≡ some v
            → xt_find_attr g (xt_add_attr n key value) other ≡ done (some v))
        × ((other : Bytes)
            → g.strcasecmp key other ≡ false
            → strcmp_eq other (codes "xmlns") ≡ false
            → find_value g (attrs_of n).list other ≡ none
            → has_key (attrs_of n).list key ≡ false
            → ((attrs_of n).behind ≡ [] → xt_find_attr g (xt_add_attr n key value) other ≡ fault)
              × (xt_find_attr g (xt_dup (xt_add_attr n key value)) other ≡ done none))
        × ((gone other : Bytes)
            → let m = (xt_remove_attr n gone).1 in
              has_key (attrs_of n).list gone ≡ true
              → g.strcasecmp key other ≡ false
              → strcmp_eq other (codes "xmlns") ≡ false
              → find_value g (attrs_of m).list other ≡ none
              → has_key (attrs_of m).list key ≡ false
              → xt_find_attr g (xt_add_attr m key value) other
                ≡ (if (attrs_of n).unset then fault else done none))
  unfolding xt_add_attr xt_find_attr or_prefix value_or_end
  xt_find_attr-xt_add_attr (node name a text complete seen children) key value m =
      let n = node name a text complete seen children in
      (
        rw (find_value-add_attr a key value m) refl,
        λ other v h e. rw (find_value-add_other a key value other h, e) refl,
        λ other h plain e new. (
          λ nothing.
              find-end n key value other h plain e new
              ∙ ap (λ l. if next_unset l then fault else done none) nothing,
          unfold xt_dup in
              unfold dup_attrs in rw (find_value-add_other a key value other h, e, plain) refl,
        ),
        λ gone other has h plain e new.
            find-end (xt_remove_attr n gone).1 key value other h plain e new
            ∙ ap (λ l. if next_unset l then fault else done none) (removed-behind n gone has),
      )
