-- ===== src/Account/Tags/Unique.antt =====
-- protocols/account.c: no two accounts have the same tag.
use bitl_steam.Common.{
  false≢true, ℕ, zero, suc, ◌+◌, ◌≤◌, ◌<◌, ◌≡◌, ◌≢◌, refl, ap, sym, ◌∙◌, Bool, true, false, Option,
  none, some, is_some, List, [], ◌∷◌, ◌++◌, Bytes, if◌then◌else◌, arith, Bool-cases, inl, inr,
}
use bitl_steam.Stdio.{print_nat}
use bitl_steam.Glib.{Glib, strcasecmp_refl, strcasecmp_comm}
use bitl_steam.Account.Tags.{
  Account, has_tag, account_by_tag, numbered, free_tag, tag_set, guess, new_account, account_add,
}

module _ (g : Glib) where
  -- No account has a tag that one behind it has, with no regard to case.
  abbrev pub UniqueTags : List Account → Type 0
  UniqueTags [] = Unit
  UniqueTags (a ∷ l) = ((t : Bytes) → a.tag ≡ some t → account_by_tag g l t ≡ none) × UniqueTags l

  by_tag-append :
      (l m : List Account) (t : Bytes)
      → account_by_tag g (l ++ m) t
        ≡ elim (account_by_tag g l t) [ none ↦ account_by_tag g m t | some a ↦ some a ]
  unfolding account_by_tag
  by_tag-append [] m t = refl
  by_tag-append (a ∷ l) m t = elim (Bool-cases (has_tag g a t)) [
    | inl e ↦ rw e refl
    | inr e ↦ rw e (by_tag-append l m t)
  ]

  no_clash :
      (x y : Option Bytes) (t : Bytes)
      → x ≡ some t
      → ((s : Bytes) → y ≡ some s → elim x [ none ↦ false | some z ↦ g.strcasecmp s z ] ≡ false)
      → elim y [ none ↦ false | some z ↦ g.strcasecmp t z ] ≡ false
  no_clash none y t e f = cc
  no_clash (some z) none t e f = refl
  no_clash (some z) (some s) t e f =
      let same : z ≡ t = cc in rw (strcasecmp_comm g t s, sym same) (f s refl)

  if_none :
      (b : Bool) (x : Account) (o : Option Account)
      → (if b then some x else o) ≡ none
      → (b ≡ false) × (o ≡ none)
  if_none true x o h = cc
  if_none false x o h = (refl, h)

  tag_of_free :
      (o : Option Account) (tag t : Bytes)
      → (if is_some o then none else some tag) ≡ some t
      → (o ≡ none) × (tag ≡ t)
  tag_of_free none tag t h = (refl, cc)
  tag_of_free (some a) tag t h = cc

  not_first :
      (a : Account) (l : List Account) (t : Bytes)
      → account_by_tag g (a ∷ l) t ≡ none
      → (has_tag g a t ≡ false) × (account_by_tag g l t ≡ none)
  unfolding account_by_tag
  not_first a l t h = if_none (has_tag g a t) a (account_by_tag g l t) h

  UniqueTags-append :
      (l : List Account) (b : Account)
      → UniqueTags l
      → ((t : Bytes) → b.tag ≡ some t → account_by_tag g l t ≡ none)
      → UniqueTags (l ++ b ∷ [])
  unfolding account_by_tag
  UniqueTags-append [] b u f = (λ t e. refl, tt)
  UniqueTags-append (a ∷ l) b (h, u) f = (
    λ t e.
        rw
          (
            by_tag-append l (b ∷ []) t,
            h t e,
            no_clash a.tag b.tag t e (λ s q. (not_first a l s (f s q)).0),
          )
          refl,
    UniqueTags-append l b u (λ t e. (not_first a l t (f t e)).1),
  )

  free_none : (o : Option Account) → is_some o ≡ false → o ≡ none
  free_none none h = refl
  free_none (some a) h = cc

  none_free : (o : Option Account) → o ≡ none → is_some o ≡ false
  none_free none h = refl
  none_free (some a) h = cc

  -- A number that is free ends the loop with a tag that is.
  numbered_free :
      (l : List Account) (tag : Bytes) (n i j : ℕ) (buffer : Bytes)
      → i ≤ j
      → j < i + n
      → account_by_tag g l (tag ++ print_nat j) ≡ none
      → account_by_tag g l (numbered g l tag n i buffer) ≡ none
  unfolding numbered
  numbered_free l tag zero i j buffer low high h = absurd (omega arith)
  numbered_free l tag (suc n) i j buffer low high h =
      elim (Bool-cases (is_some (account_by_tag g l (tag ++ print_nat i)))) [
        | inl e ↦
            (let later : i ≢ j = λ q. false≢true (
                sym (
                  sym e
                  ∙ ap (λ k. is_some (account_by_tag g l (tag ++ print_nat k))) q
                  ∙ none_free _ h)) in
              rw e (
                numbered_free l tag n (i + 1) j (tag ++ print_nat i) (omega arith) (omega arith) h))
        | inr e ↦ rw e (free_none _ e)
      ]

  free_tag_free :
      (l : List Account) (tag : Bytes) (j : ℕ)
      → 2 ≤ j
      → j < 10000
      → account_by_tag g l (tag ++ print_nat j) ≡ none
      → account_by_tag g l (free_tag g l tag) ≡ none
  unfolding free_tag
  free_tag_free l tag j low high h = elim (Bool-cases (is_some (account_by_tag g l tag))) [
    | inl e ↦ rw e (numbered_free l tag 9998 2 j tag low (omega arith) h)
    | inr e ↦ rw e (free_none _ e)
  ]

  -- `account_add` leaves the accounts as they are, found by their tags, and puts one behind them. If
  -- no two had the same tag, it is still so. The new one has a tag by which it is found, if one
  -- of the tags with a number from 2 to 9999 is free.
  pub account_add_lem :
      (l : List Account) (prpl user pass : Bytes)
      → UniqueTags l
      → let tag = free_tag g l (guess prpl user) in
        let after = account_add g l prpl user pass in
        UniqueTags after
        × ((t : Bytes) (a : Account)
            → account_by_tag g l t ≡ some a
            → account_by_tag g after t ≡ some a)
        × ((j : ℕ)
            → 2 ≤ j
            → j < 10000
            → account_by_tag g l (guess prpl user ++ print_nat j) ≡ none
            → (a : Account) × (account_by_tag g after tag ≡ some a)
              × (a.user ≡ user)
              × (a.tag ≡ some tag))
  unfolding account_add tag_set
  account_add_lem l prpl user pass u =
      let tag = free_tag g l (guess prpl user) in
      let b = new_account g l prpl user pass in
      (
        UniqueTags-append l b u (λ t e.
            let (free, same) = tag_of_free (account_by_tag g l tag) tag t e in
            sym (ap (account_by_tag g l) same) ∙ free),
        λ t a e. rw (by_tag-append l (b ∷ []) t, e) refl,
        λ j low high h.
            let e = free_tag_free l (guess prpl user) j low high h in
            (
              b,
              rw (by_tag-append l (b ∷ []) tag, e)
                  (unfold account_by_tag in rw (e, strcasecmp_refl g tag) refl),
              refl,
              rw e refl,
            ),
      )
