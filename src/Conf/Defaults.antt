-- ===== src/Conf/Defaults.antt =====
-- conf.c: conf_loaddefaults.
use mathlib.Core.Option
use bitl_steam.Common.{
  ℕ, ◌<◌, ◌≤◌, ◌≡◌, refl, ◌∙◌, Bool, true, false, ◌&&◌, Option, none, some, List, [], ◌∷◌, Bytes,
  codes, length, leb, ◌==◌, if◌then◌else◌, All, arith, Bool-cases, inl, inr,
}
use bitl_steam.Glib.{Glib}
use bitl_steam.Ini.{Entry, ini_open}
use bitl_steam.Ini.RoundTrip.{Item, IsItem, file_text, file_entries, all_entries-items}
use bitl_steam.Settings.{Setting, find}
use bitl_steam.Settings.Nodes.{KeepsNames, written, find-modify}
use bitl_steam.Conf.{set_default, load_default, load_defaults, conf_loaddefaults}

module _ (g : Glib) {E D : Type 0} where
  -- The search found the node at this place.
  abbrev pub is_at : Option (ℕ × Setting E D) → ℕ → Bool
  is_at none i = false
  is_at (some r) i = r.0 == i

  -- The last default that the entries give the node at place `i`.
  unfoldable pub default_at : List (Setting E D) → List Entry → ℕ → Option Bytes → Option Bytes
  default_at l [] i d = d
  default_at l (e ∷ es) i d = default_at l es i (
      if g.strcasecmp e.section (codes "defaults") && is_at (find g l e.key) i
      then some e.value
      else d)

  -- A node with that default.
  abbrev pub with_default : List (Setting E D) → List Entry → ℕ × Setting E D → ℕ × Setting E D
  with_default l es r = (r.0, record r.1 { def = default_at l es r.0 r.1.def })

  default-KeepsNames :
      (value : Bytes) → KeepsNames {E = E} {D = D} (λ s. record s { def = some value })
  default-KeepsNames value = record { key = λ s. refl; old_key = λ s. refl }

  is_at-written :
      (f : Setting E D → Setting E D) (i j : ℕ) (o : Option (ℕ × Setting E D))
      → is_at (Option.map (written j f) o) i ≡ is_at o i
  is_at-written f i j none = refl
  is_at-written f i j (some r) = refl

  is_at-load_default :
      (e : Entry) (l : List (Setting E D)) (k : Bytes) (i : ℕ)
      → is_at (find g (load_default g e l) k) i ≡ is_at (find g l k) i
  unfolding load_default set_default
  is_at-load_default e l k i = elim (Bool-cases (g.strcasecmp e.section (codes "defaults"))) [
    | inl d ↦ rw d (by_place (find g l e.key))
    | inr d ↦ rw d refl
  ]
    where
      by_place :
          (o : Option (ℕ × Setting E D))
          → is_at (find g (set_default g l e.value o) k) i ≡ is_at (find g l k) i
      by_place none = refl
      by_place (some r) =
          rw
            (find-modify g l r.0 (λ s. record s { def = some e.value }) k
              (default-KeepsNames e.value))
            (is_at-written (λ s. record s { def = some e.value }) i r.0 (find g l k))

  default_at-load_default :
      (e : Entry) (l : List (Setting E D)) (es : List Entry) (i : ℕ) (d : Option Bytes)
      → default_at (load_default g e l) es i d ≡ default_at l es i d
  unfolding default_at
  default_at-load_default e l [] i d = refl
  default_at-load_default e l (x ∷ es) i d =
      rw (is_at-load_default e l x.key i) (default_at-load_default e l es i _)

  -- What one entry makes of the node that is found.
  abbrev defaulted : Bool → Option (ℕ × Setting E D) → Bytes → ℕ × Setting E D → ℕ × Setting E D
  defaulted b o value r =
      (r.0, record r.1 { def = if b && is_at o r.0 then some value else r.1.def })

  find-load_default :
      (e : Entry) (l : List (Setting E D)) (k : Bytes)
      → find g (load_default g e l) k
        ≡ Option.map
            (defaulted (g.strcasecmp e.section (codes "defaults")) (find g l e.key) e.value)
            (find g l k)
  unfolding load_default set_default
  find-load_default e l k = elim (Bool-cases (g.strcasecmp e.section (codes "defaults"))) [
    | inl d ↦ rw d (by_place (find g l e.key))
    | inr d ↦ rw d (unchanged (find g l k))
  ]
    where
      unchanged :
          (o : Option (ℕ × Setting E D))
          → o ≡ Option.map (λ r. (r.0, record r.1 { def = r.1.def })) o
      unchanged none = refl
      unchanged (some r) = refl

      as_written :
          (r : ℕ × Setting E D) (o : Option (ℕ × Setting E D))
          → Option.map (written r.0 (λ s. record s { def = some e.value })) o
            ≡ Option.map
                (λ q. (q.0, record q.1 { def = if r.0 == q.0 then some e.value else q.1.def }))
                o
      as_written r none = refl
      as_written r (some q) = elim (Bool-cases (r.0 == q.0)) [
        | inl h ↦ rw h refl
        | inr h ↦ rw h refl
      ]

      by_place :
          (o : Option (ℕ × Setting E D))
          → find g (set_default g l e.value o) k
            ≡ Option.map
                (λ q. (q.0, record q.1 { def = if is_at o q.0 then some e.value else q.1.def }))
                (find g l k)
      by_place none = unchanged (find g l k)
      by_place (some r) =
          find-modify g l r.0 (λ s. record s { def = some e.value }) k (default-KeepsNames e.value)
          ∙ as_written r (find g l k)

  find-load_defaults :
      (es : List Entry) (l : List (Setting E D)) (k : Bytes)
      → find g (load_defaults g es l) k ≡ Option.map (with_default l es) (find g l k)
  unfolding load_defaults default_at
  find-load_defaults [] l k = unchanged (find g l k)
    where
      unchanged :
          (o : Option (ℕ × Setting E D))
          → o ≡ Option.map (λ r. (r.0, record r.1 { def = r.1.def })) o
      unchanged none = refl
      unchanged (some r) = refl
  find-load_defaults (e ∷ es) l k =
      rw (find-load_defaults es (load_default g e l) k, find-load_default e l k) (step (find g l k))
    where
      step :
          (o : Option (ℕ × Setting E D))
          → Option.map (with_default (load_default g e l) es) (
              Option.map
                (defaulted (g.strcasecmp e.section (codes "defaults")) (find g l e.key) e.value)
                o)
            ≡ Option.map (with_default l (e ∷ es)) o
      step none = refl
      step (some r) = rw (default_at-load_default e l es r.0 _) refl

  -- After `conf_loaddefaults` of a file of at most 16384 bytes, which has settings, headings and
  -- remarks only, a setting is found where it was found before, and nothing of it has changed but
  -- its default, which is the last that a [defaults] section gives a key under which it is the one
  -- that is found. A larger file is not opened, and nothing changes.
  pub conf_loaddefaults_lem :
      (items : List Item) (l : List (Setting E D)) (k : Bytes)
      → All IsItem items
      → (length (file_text items) ≤ 16384
          → find g (conf_loaddefaults g (ini_open (file_text items)) l) k
            ≡ Option.map (with_default l (file_entries [] items)) (find g l k))
        × (16384 < length (file_text items)
            → conf_loaddefaults g (ini_open (file_text items)) l ≡ l)
  unfolding conf_loaddefaults ini_open
  conf_loaddefaults_lem items l k h = (
    λ small.
        let fits : leb (length (file_text items)) 16384 ≡ true = (ground arith) in
        rw (fits, all_entries-items items h) (find-load_defaults (file_entries [] items) l k),
    λ large.
        let too_long : leb (length (file_text items)) 16384 ≡ false = (ground arith) in
        rw too_long refl,
  )
