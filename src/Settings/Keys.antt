-- ===== src/Settings/Keys.antt =====
-- set.c: `set_add`, `set_del`, and the keys of a list.
use bitl_steam.Common.{
  ℕ, zero, suc, ◌≡◌, ◌≢◌, ◌<◌, refl, true, false, Option, none, some, List, [], ◌∷◌, ◌++◌, Bytes,
  arith, Bool-cases, Option-cases, inl, inr, length, All, All-append,
}
use bitl_steam.Glib.{Glib, strcasecmp_refl, strcasecmp_comm, strcasecmp_trans}
use bitl_steam.Settings.{fresh, redefine, Setting, modify, matches, find, add, del, del_all, getstr}
use bitl_steam.Settings.Nodes.{KeepsNames, find-modify}

module _ (g : Glib) {E D : Type 0} where
  -- No node's key is this one.
  abbrev pub Lacks : Bytes → List (Setting E D) → Type 0
  Lacks k = All (λ s. g.strcasecmp s.key k ≡ false)

  -- No two nodes have the same key, with no regard to case.
  abbrev pub IsUnique : List (Setting E D) → Type 0
  IsUnique [] = Unit
  IsUnique (s ∷ l) = Lacks s.key l × IsUnique l

  pub Lacks-del : (k j : Bytes) (l : List (Setting E D)) → Lacks j l → Lacks j (del g l k)
  unfolding del
  Lacks-del k j [] h = tt
  Lacks-del k j (s ∷ l) (hs, h) = elim (Bool-cases (g.strcasecmp s.key k)) [
    | inl e ↦ rw e h
    | inr e ↦ rw e (hs, Lacks-del k j l h)
  ]

  Lacks-of_same :
      (k j : Bytes) (l : List (Setting E D)) → g.strcasecmp j k ≡ true → Lacks j l → Lacks k l
  Lacks-of_same k j [] e h = tt
  Lacks-of_same k j (s ∷ l) e (hs, h) =
      (ground (arith, strcasecmp_comm g j k, strcasecmp_trans g s.key k j), Lacks-of_same k j l e h)

  -- `set_del` keeps the keys unique, and no node has the deleted key any more.
  pub del-IsUnique :
      (k : Bytes) (l : List (Setting E D)) → IsUnique l → IsUnique (del g l k) × Lacks k (del g l k)
  unfolding del
  del-IsUnique k [] h = (tt, tt)
  del-IsUnique k (s ∷ l) (hs, h) = elim (Bool-cases (g.strcasecmp s.key k)) [
    | inl e ↦ rw e (h, Lacks-of_same k s.key l e hs)
    | inr e ↦ let (u, lk) = del-IsUnique k l h in rw e ((Lacks-del k s.key l hs, u), (e, lk))
  ]

  del_head : (s : Setting E D) (l : List (Setting E D)) → del g (s ∷ l) s.key ≡ l
  unfolding del
  del_head s l = rw (strcasecmp_refl g s.key)

  -- Deleting the first node's key takes the first node off, so the loop of `account_del` needs one
  -- round for each node and leaves nothing.
  pub del_all-empties : (l : List (Setting E D)) (f : ℕ) → length l < f → del_all g f l ≡ some []
  unfolding del_all
  del_all-empties l zero h = absurd (omega arith)
  del_all-empties [] (suc f) h = refl
  del_all-empties (s ∷ l) (suc f) h = rw (del_head s l) (del_all-empties l f (omega arith))

  Lacks-modify :
      (l : List (Setting E D)) (i : ℕ) (f : Setting E D → Setting E D) (k : Bytes)
      → KeepsNames f
      → Lacks k l
      → Lacks k (modify l i f)
  Lacks-modify [] i f k n h = tt
  Lacks-modify (s ∷ l) zero f k n (hs, h) = (rw (n.key s) hs, h)
  Lacks-modify (s ∷ l) (suc i) f k n (hs, h) = (hs, Lacks-modify l i f k n h)

  IsUnique-modify :
      (l : List (Setting E D)) (i : ℕ) (f : Setting E D → Setting E D)
      → KeepsNames f
      → IsUnique l
      → IsUnique (modify l i f)
  IsUnique-modify [] i f n h = tt
  IsUnique-modify (s ∷ l) zero f n (hs, h) = (rw (n.key s) hs, h)
  IsUnique-modify (s ∷ l) (suc i) f n (hs, h) =
      (Lacks-modify l i f s.key n hs, IsUnique-modify l i f n h)

  Lacks-of_not_found : (k : Bytes) (l : List (Setting E D)) → find g l k ≡ none → Lacks k l
  unfolding find
  Lacks-of_not_found k [] h = tt
  Lacks-of_not_found k (s ∷ l) h = elim (Bool-cases (matches g s k)) [
    | inl e ↦ absurd (ground arith)
    | inr e ↦ (unfold matches in ground arith, Lacks-of_not_found k l (ground arith))
  ]

  IsUnique-append :
      (l : List (Setting E D)) (s : Setting E D)
      → IsUnique l
      → Lacks s.key l
      → IsUnique (l ++ s ∷ [])
  IsUnique-append [] s h k = (tt, tt)
  IsUnique-append (t ∷ l) s (ht, h) (kt, k) = (
    All-append _ l (s ∷ []) ht (rw (strcasecmp_comm g s.key t.key) kt, tt),
    IsUnique-append l s h k,
  )

  find-append_some :
      (l m : List (Setting E D)) (k : Bytes) {r : ℕ × Setting E D}
      → find g l k ≡ some r
      → find g (l ++ m) k ≡ some r
  unfolding find
  find-append_some [] m k h = cc
  find-append_some (s ∷ l) m k {r = r} h = elim (Bool-cases (matches g s k)) [
    | inl e ↦ rw e (ground arith)
    | inr e ↦ elim (Option-cases (find g l k)) [
      | inl f ↦ absurd (ground arith)
      | inr (q, f) ↦ rw (e, find-append_some l m k f) (ground arith)
    ]
  ]

  find-append_none :
      (l : List (Setting E D)) (s : Setting E D) (k : Bytes)
      → find g l k ≡ none
      → matches g s k ≡ true
      → find g (l ++ s ∷ []) k ≡ some (length l, s)
  unfolding find
  find-append_none [] s k h e = rw e refl
  find-append_none (t ∷ l) s k h e = elim (Bool-cases (matches g t k)) [
    | inl d ↦ absurd (ground arith)
    | inr d ↦ rw (d, find-append_none l s k (ground arith) e) refl
  ]

  matches_own_key : (s : Setting E D) → matches g s s.key ≡ true
  unfolding matches
  matches_own_key s = rw (strcasecmp_refl g s.key)

  -- The value that a key's node has, null where there is no node.
  abbrev pub own_value : Option (ℕ × Setting E D) → Option Bytes
  own_value none = none
  own_value (some (i, s)) = s.value

  -- The node that a key names has this default and this evaluator, and kept its value.
  pub record IsAdded (l l' : List (Setting E D)) (k : Bytes) (i : ℕ) (def : Option Bytes)
      (eval : Option E) : Type 0 where
    pub node : Setting E D
    pub found : find g l' k ≡ some (i, node)
    pub default : node.def ≡ def
    pub evaluator : node.eval ≡ eval
    pub value : node.value ≡ own_value (find g l k)

  -- What adding is to give: the node, unique keys, and other settings that read as before.
  abbrev pub Adds :
      List (Setting E D) → Bytes → Option Bytes → Option E → List (Setting E D) × ℕ → Type 0
  Adds l k def eval (l', i) =
      IsAdded l l' k i def eval
      × IsUnique l'
      × ((k' : Bytes) (j : ℕ) (t : Setting E D)
          → find g l k' ≡ some (j, t)
          → i ≢ j
          → getstr g l' k' ≡ getstr g l k')

  redefine-KeepsNames :
      (def : Option Bytes) (eval : Option E) (owner : D) → KeepsNames (redefine def eval owner)
  redefine-KeepsNames def eval owner = record { key = λ r. refl; old_key = λ r. refl }

  added_new :
      (l : List (Setting E D)) (k : Bytes) (def : Option Bytes) (eval : Option E) (owner : D)
      → IsUnique l
      → find g l k ≡ none
      → Adds l k def eval (l ++ fresh k def eval owner ∷ [], length l)
  unfolding getstr
  added_new l k def eval owner u f =
      let s = fresh k def eval owner in
      (
        record {
          node = s;
          found = find-append_none l s k f (matches_own_key s);
          default = refl;
          evaluator = refl;
          value = rw f refl;
        },
        IsUnique-append l s u (Lacks-of_not_found k l f),
        λ k' j t e ne. rw (find-append_some l (s ∷ []) k' e, e) refl,
      )

  added_old :
      (l : List (Setting E D)) (k : Bytes) (def : Option Bytes) (eval : Option E) (owner : D)
      (i : ℕ) (s : Setting E D)
      → IsUnique l
      → find g l k ≡ some (i, s)
      → Adds l k def eval (modify l i (redefine def eval owner), i)
  unfolding getstr
  added_old l k def eval owner i s u f =
      let n = redefine-KeepsNames def eval owner in
      (
        record {
          node = redefine def eval owner s;
          found = rw (find-modify g l i (redefine def eval owner) k n, f) (ground arith);
          default = refl;
          evaluator = refl;
          value = rw f refl;
        },
        IsUnique-modify l i (redefine def eval owner) n u,
        λ k' j t e ne. rw (find-modify g l i (redefine def eval owner) k' n, e) (ground arith),
      )

  -- Adding gives the place of a node that the key finds, with the new default and evaluator and the
  -- value that was there; the other settings read as before, and the keys stay unique.
  pub add_lem :
      (l : List (Setting E D)) (k : Bytes) (def : Option Bytes) (eval : Option E) (owner : D)
      → IsUnique l
      → Adds l k def eval (add g l k def eval owner)
  unfolding add
  add_lem l k def eval owner u = elim (Option-cases (find g l k)) [
    | inl f ↦ rw f (added_new l k def eval owner u f)
    | inr ((i, s), f) ↦ rw f (added_old l k def eval owner i s u f)
  ]
