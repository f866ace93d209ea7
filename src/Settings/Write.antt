-- ===== src/Settings/Write.antt =====
-- set.c: `set_setstr` and `set_reset`.
use mathlib.Core.Option
use bitl_steam.Common.{
  ℕ, ◌≡◌, ◌≢◌, refl, ap, sym, ◌∙◌, true, false, not, ◌&&◌, Option, none, some, List, Bytes, arith,
  if◌then◌else◌, Bool-cases, Option-cases, strcmp_eq_iff, inl, inr, ◌⊎◌, get_elem?,
}
use bitl_steam.Common.Outcome.{done, Outcome-cases}
use bitl_steam.Glib.{Glib}
use bitl_steam.Settings.{
  assign, Setting, Verdict, invalid, gives, modify, find, getstr, setstr, reset, answer, judge,
  store, stored, Effect, effect, set_found, is_null, has_flag, set_null_ok,
}
use bitl_steam.Settings.Nodes.{KeepsNames, find-modify, find_sound}

-- The list after a value was taken.
abbrev pub assigned : {E D : Type 0} → List (Setting E D) → ℕ → Option Bytes → List (Setting E D)
assigned l i v = modify l i (assign v)

module _ (g : Glib) {E D W : Type 0}
    (run : E → Setting E D → Option Bytes → List (Setting E D) → ℕ → W → Effect E D W) where
  -- The node that has the key takes the value: a null value only where the node's flags allow it,
  -- and the evaluator, if there is one, gives `nv` back and leaves the node as `t`, null again only
  -- where that is allowed.
  pub record Takes (l : List (Setting E D)) (k : Bytes) (v : Option Bytes) (w : W) (i : ℕ)
      (s t : Setting E D) (nv : Option Bytes) : Type 0 where
    pub found : find g l k ≡ some (i, s)
    pub not_null : (is_null v && not (has_flag s set_null_ok)) ≡ false
    pub given : (answer g run l i s v w).verdict ≡ gives nv
    pub left : get_elem? (answer g run l i s v w).list (answer g run l i s v w).place ≡ some t
    pub result_not_null : (is_null nv && not (has_flag t set_null_ok)) ≡ false

  judge_success :
      (r : Effect E D W) (verdict : Verdict) (at : Option (Setting E D)) {l' : List (Setting E D)}
      {w' : W}
      → judge g run r verdict at ≡ done (l', true, w')
      → (t : Setting E D) × (nv : Option Bytes) × (x : Option Bytes) × (verdict ≡ gives nv)
        × (at ≡ some t)
        × ((is_null nv && not (has_flag t set_null_ok)) ≡ false)
        × (stored t.def nv ≡ done x)
        × (l' ≡ assigned r.list r.place x)
  unfolding judge store
  judge_success r invalid at h = cc
  judge_success r (gives nv) none h = cc
  judge_success r (gives nv) (some t) h =
      elim (Bool-cases (is_null nv && not (has_flag t set_null_ok))) [
        | inl e ↦ absurd (ground arith)
        | inr e ↦ elim (Outcome-cases (stored t.def nv)) [
          | inl f ↦ absurd (ground arith)
          | inr (x, f) ↦ (t, nv, x, refl, refl, e, f, ground arith)
        ]
      ]

  -- `set_setstr` succeeds only as its node takes the value, and then writes that one node of the
  -- list that the evaluator leaves.
  pub setstr_success :
      (l : List (Setting E D)) (k : Bytes) (v : Option Bytes) (w : W) {l' : List (Setting E D)}
      {w' : W}
      → setstr g run l k v w ≡ done (l', true, w')
      → (i : ℕ) × (s : Setting E D) × (t : Setting E D) × (nv : Option Bytes) × (x : Option Bytes)
        × Takes l k v w i s t nv
        × (stored t.def nv ≡ done x)
        × (l' ≡ assigned (answer g run l i s v w).list (answer g run l i s v w).place x)
  unfolding setstr set_found
  setstr_success l k v w {l'} {w'} h = elim (Option-cases (find g l k)) [
    | inl f ↦ absurd (ground arith)
    | inr ((i, s), f) ↦ elim (Bool-cases (is_null v && not (has_flag s set_null_ok))) [
      | inl e ↦ absurd (ground arith)
      | inr e ↦
          let r = answer g run l i s v w in
          let (t, nv, x, given, left, ok, st, eq) =
            judge_success r r.verdict (get_elem? r.list r.place) {l' = l'} {w' = w'}
              (let h = rw (f, e) at h in h) in
          (
            i,
            s,
            t,
            nv,
            x,
            record { found = f; not_null = e; given = given; left = left; result_not_null = ok },
            st,
            eq,
          )
    ]
  ]

stored_self : (d : Option Bytes) → stored d d ≡ done none
unfolding stored
stored_self none = refl
stored_self (some d) = rw ((strcmp_eq_iff d d).1 refl) refl

stored_value : (d nv x : Option Bytes) → stored d nv ≡ done x → (if is_null x then d else x) ≡ nv
unfolding stored
stored_value none nv x h = ground arith
stored_value (some d) none x h = cc
stored_value (some d) (some v) x h = ground (arith, (strcmp_eq_iff v d).0)

-- The place of the node that a key names.
abbrev pub place : Glib → {E D : Type 0} → List (Setting E D) → Bytes → Option ℕ
place g l k = Option.map (λ r. r.0) (find g l k)

assign-KeepsNames : {E D : Type 0} {x : Option Bytes} → KeepsNames (assign {E = E} {D = D} x)
assign-KeepsNames = record { key = λ r. refl; old_key = λ r. refl }

module _ (g : Glib) {E D : Type 0} (l : List (Setting E D)) (i : ℕ) (x : Option Bytes) where
  getstr-assigned :
      (k : Bytes) (s : Setting E D) (nv : Option Bytes)
      → find g l k ≡ some (i, s)
      → stored s.def nv ≡ done x
      → getstr g (assigned l i x) k ≡ nv
  unfolding getstr
  getstr-assigned k s nv f st =
      rw (find-modify g l i (assign x) k assign-KeepsNames, f)
        (ground (arith, stored_value s.def nv x st))

  getstr-assigned_other :
      (k : Bytes) → place g l k ≢ some i → getstr g (assigned l i x) k ≡ getstr g l k
  unfolding getstr
  getstr-assigned_other k ne =
      rw (find-modify g l i (assign x) k assign-KeepsNames) (elim (Option-cases (find g l k)) [
        | inl f ↦ rw f refl
        | inr ((j, s), f) ↦
            rw f (ground (arith, ap (λ r. Option.map (λ (q : ℕ × Setting E D). q.0) r) f))
      ])

module _ (g : Glib) {E D W : Type 0}
    (run : E → Setting E D → Option Bytes → List (Setting E D) → ℕ → W → Effect E D W) where
  -- Without an evaluator the list is the one before, and the value the given one.
  pub plain_reads :
      (l : List (Setting E D)) (k : Bytes) (v : Option Bytes) (w : W) (i : ℕ) (s t : Setting E D)
      (nv : Option Bytes) (r : Effect E D W)
      → r ≡ record { verdict = gives v; list = l; place = i; world = w }
      → r.verdict ≡ gives nv
      → find g l k ≡ some (i, s)
      → get_elem? r.list r.place ≡ some t
      → (reads : Bytes → Option Bytes)
      → ((k' : Bytes) → find g r.list k' ≡ some (r.place, t) → reads k' ≡ nv)
      → ((k' : Bytes) → place g r.list k' ≢ some r.place → reads k' ≡ getstr g r.list k')
      → (nv ≡ v) × (reads k ≡ v) × ((k' : Bytes) → place g l k' ≢ some i → reads k' ≡ getstr g l k')
  plain_reads l k v w i s t nv r p given f left reads same other =
      let value : nv ≡ v = (let e = sym given ∙ ap (λ (r : Effect E D W). r.verdict) p in cc) in
      let here : get_elem? l i ≡ some t =
        ap (λ (r : Effect E D W). get_elem? r.list r.place) (sym p) ∙ left in
      let node : s ≡ t = (let e = sym (find_sound g l k f).0 ∙ here in cc) in
      let found : find g r.list k ≡ some (r.place, t) =
        ap (λ (r : Effect E D W). find g r.list k) p
        ∙ f
        ∙ ap (λ s. some (i, s)) node
        ∙ ap (λ (r : Effect E D W). some (r.place, t)) (sym p) in
      (
        value,
        same k found ∙ value,
        λ k' ne.
            other k' (λ e. ne (
              ap (λ (r : Effect E D W). place g r.list k') (sym p)
              ∙ e
              ∙ ap (λ (r : Effect E D W). some r.place) p))
            ∙ ap (λ (r : Effect E D W). getstr g r.list k') p,
      )

  -- After a successful `set_setstr` the node that the key named takes the value. A key that names
  -- that node in the list that the evaluator leaves reads what it gave back, and every other key
  -- reads as in that list. Without an evaluator that list is the one before, so that `set_getstr`
  -- of the key returns the value, and a key that names another node, or none, reads as before.
  pub getstr-setstr :
      (l : List (Setting E D)) (k : Bytes) (v : Option Bytes) (w : W) {l' : List (Setting E D)}
      {w' : W}
      → setstr g run l k v w ≡ done (l', true, w')
      → (i : ℕ) × (s : Setting E D) × (t : Setting E D) × (nv : Option Bytes) × Takes g run l k v w
          i s t nv
        × (let r = answer g run l i s v w in
            ((k' : Bytes) → find g r.list k' ≡ some (r.place, t) → getstr g l' k' ≡ nv)
            × ((k' : Bytes)
                → place g r.list k' ≢ some r.place
                → getstr g l' k' ≡ getstr g r.list k')
            × (s.eval ≡ none
                → (nv ≡ v)
                  × (getstr g l' k ≡ v)
                  × ((k' : Bytes) → place g l k' ≢ some i → getstr g l' k' ≡ getstr g l k')))
  getstr-setstr l k v w {l'} {w'} h =
      let (i, s, t, nv, x, takes, st, eq) = setstr_success g run l k v w h in
      let r = answer g run l i s v w in
      let same : (k' : Bytes) → find g r.list k' ≡ some (r.place, t) → getstr g l' k' ≡ nv =
        λ k' f. rw eq (getstr-assigned g r.list r.place x k' t nv f st) in
      let other : (k' : Bytes)
          → place g r.list k' ≢ some r.place
          → getstr g l' k' ≡ getstr g r.list k' =
        λ k' ne. rw eq (getstr-assigned_other g r.list r.place x k' ne) in
      (
        i,
        s,
        t,
        nv,
        takes,
        (
          same,
          other,
          λ plain.
              plain_reads l k v w i s t nv r (unfold answer in ap (effect g run l i s v w) plain)
                takes.given takes.found takes.left (getstr g l') same other,
        ),
      )

  judge_refusal :
      (r : Effect E D W) (verdict : Verdict) (at : Option (Setting E D)) {l' : List (Setting E D)}
      {w' : W}
      → judge g run r verdict at ≡ done (l', false, w')
      → l' ≡ r.list
  unfolding judge store
  judge_refusal r invalid at h = ground arith
  judge_refusal r (gives nv) none h = cc
  judge_refusal r (gives nv) (some t) h = ground arith

  -- A `set_setstr` that returns 0 leaves every setting as it was, or as the evaluator left it.
  pub setstr_refusal :
      (l : List (Setting E D)) (k : Bytes) (v : Option Bytes) (w : W) {l' : List (Setting E D)}
      {w' : W}
      → setstr g run l k v w ≡ done (l', false, w')
      → (l' ≡ l)
        ⊎ ((i : ℕ) × (s : Setting E D) × (find g l k ≡ some (i, s))
            × (l' ≡ (answer g run l i s v w).list))
  unfolding setstr set_found
  setstr_refusal l k v w {l' = l'} {w' = w'} h = elim (Option-cases (find g l k)) [
    | inl f ↦ inl (let h = rw f at h in (cc))
    | inr ((i, s), f) ↦ elim (Bool-cases (is_null v && not (has_flag s set_null_ok))) [
      | inl e ↦ inl (let h = rw (f, e) at h in (cc))
      | inr e ↦
          let r = answer g run l i s v w in
          inr (
            i,
            s,
            f,
            judge_refusal r r.verdict (get_elem? r.list r.place) {l' = l'} {w' = w'}
                (let h = rw (f, e) at h in h),
          )
    ]
  ]

  reset-assigned :
      (l : List (Setting E D)) (k : Bytes) (w : W) (i : ℕ) (s : Setting E D)
      → find g l k ≡ some (i, s)
      → s.eval ≡ none
      → (is_null s.def && not (has_flag s set_null_ok)) ≡ false
      → reset g run l k w ≡ done (assigned l i none, true, w)
  unfolding reset setstr set_found answer effect judge store
  reset-assigned l k w i s f e ok =
      ground (arith, f, e, ok, (find_sound g l k f).0, stored_self s.def)

  -- A setting with no evaluator that has a default, or may be null, is reset: its own value is
  -- dropped, so that it reads as its default, and every other setting reads as before.
  pub getstr-reset :
      (l : List (Setting E D)) (k : Bytes) (w : W) (i : ℕ) (s : Setting E D)
      → find g l k ≡ some (i, s)
      → s.eval ≡ none
      → (is_null s.def && not (has_flag s set_null_ok)) ≡ false
      → (reset g run l k w ≡ done (assigned l i none, true, w))
        × (getstr g (assigned l i none) k ≡ s.def)
        × ((k' : Bytes) → place g l k' ≢ some i → getstr g (assigned l i none) k' ≡ getstr g l k')
  getstr-reset l k w i s f e ok = (
    reset-assigned l k w i s f e ok,
    getstr-assigned g l i none k s s.def f (stored_self s.def),
    getstr-assigned_other g l i none,
  )
