-- ===== src/Root/Unique.antt =====
-- root_commands.c: how a command may be shortened.
use bitl_steam.Common.{
  ℕ, ◌≡◌, ◌↔◌, refl, ap, sym, ◌∙◌, Bool, true, false, ◌&&◌, ◌||◌, Option, none, some, List, [], ◌∷◌,
  ◌++◌, map, Bytes, length, take, tolower, ltb, ◌==◌, All, arith, Bool-cases, inl, inr, false≢true,
}
use bitl_steam.Glib.{Glib}
use bitl_steam.Root.{
  Handler, execute, Command, run_found, root_command, root_commands, is_start, next_starts,
  find_command,
}

abbrev is_prefix : Bytes → Bytes → Bool
is_prefix [] a = true
is_prefix (x ∷ n) [] = false
is_prefix (x ∷ n) (y ∷ a) = tolower x == tolower y && is_prefix n a

-- The order of the table.
abbrev is_before : Bytes → Bytes → Bool
is_before [] b = true
is_before (x ∷ a) [] = false
is_before (x ∷ a) (y ∷ b) = ltb (tolower x) (tolower y) || (tolower x == tolower y && is_before a b)

-- The second text comes after all that start with the first.
abbrev is_beyond : Bytes → Bytes → Bool
is_beyond [] b = false
is_beyond (x ∷ n) [] = false
is_beyond (x ∷ n) (y ∷ b) = ltb (tolower x) (tolower y) || (tolower x == tolower y && is_beyond n b)

beyond_first :
    (n a b : Bytes)
    → is_prefix n a ≡ true
    → is_prefix n b ≡ false
    → is_before a b ≡ true
    → is_beyond n b ≡ true
beyond_first [] a b p q r = absurd (false≢true (sym q))
beyond_first (x ∷ n) [] b p q r = absurd (false≢true p)
beyond_first (x ∷ n) (y ∷ a) [] p q r = absurd (false≢true r)
beyond_first (x ∷ n) (y ∷ a) (z ∷ b) p q r = let rest = beyond_first n a b in ground arith

beyond_next : (n a b : Bytes) → is_beyond n a ≡ true → is_before a b ≡ true → is_beyond n b ≡ true
beyond_next [] a b p r = absurd (false≢true p)
beyond_next (x ∷ n) [] b p r = absurd (false≢true p)
beyond_next (x ∷ n) (y ∷ a) [] p r = absurd (false≢true r)
beyond_next (x ∷ n) (y ∷ a) (z ∷ b) p r = let rest = beyond_next n a b in ground arith

beyond_no_prefix : (n a : Bytes) → is_beyond n a ≡ true → is_prefix n a ≡ false
beyond_no_prefix [] a p = absurd (false≢true p)
beyond_no_prefix (x ∷ n) [] p = refl
beyond_no_prefix (x ∷ n) (y ∷ a) p = let rest = beyond_no_prefix n a in ground arith

abbrev is_sorted : List Command → Bool
is_sorted [] = true
is_sorted (c ∷ []) = true
is_sorted (c ∷ d ∷ l) = is_before c.command d.command && is_sorted (d ∷ l)

root_commands_sorted : is_sorted root_commands ≡ true
root_commands_sorted = refl

heads : {x y : ℕ} {a b : Bytes} → x ∷ a ≡ y ∷ b → x ≡ y
heads e = cc

tails : {x y : ℕ} {a b : Bytes} → x ∷ a ≡ y ∷ b → a ≡ b
tails e = cc

prefix_iff :
    (n a : Bytes)
    → (map tolower (take (length n) a) ≡ map tolower (take (length n) n)) ↔ (is_prefix n a ≡ true)
prefix_iff [] a = (λ e. refl, λ e. refl)
prefix_iff (x ∷ n) [] = (λ e. cc, λ e. absurd (false≢true e))
prefix_iff (x ∷ n) (y ∷ a) = (
  λ e.
      let here : tolower x ≡ tolower y = (let e = heads e in sym e) in
      let rest = (prefix_iff n a).0 (tails e) in ground arith,
  λ e.
      let here : tolower y ≡ tolower x = ground arith in
      let rest = (prefix_iff n a).1 (ground arith) in cc,
)

module _ (g : Glib) where
  start-prefix : (name : Bytes) (c : Command) → is_start g name c ≡ is_prefix name c.command
  start-prefix name c =
      let s = g.strncasecmp_iff c.command name (length name) in
      let p = prefix_iff name c.command in
      elim (Bool-cases (is_prefix name c.command)) [
        | inl e ↦ s.1 (p.1 e) ∙ sym e
        | inr e ↦ elim (Bool-cases (is_start g name c)) [
          | inl t ↦ absurd (false≢true (sym e ∙ p.0 (s.0 t)))
          | inr t ↦ t ∙ sym e
        ]
      ]

  -- The only row that starts with a text.
  abbrev pub IsOnly : Bytes → List Command → Command → Type 0
  IsOnly name l c =
      (pre post : List Command) × (l ≡ pre ++ c ∷ post)
      × All (λ x. is_start g name x ≡ false) pre
      × (is_start g name c ≡ true)
      × All (λ x. is_start g name x ≡ false) post

  none_behind :
      (name : Bytes) (a : Command) (l : List Command)
      → is_beyond name a.command ≡ true
      → is_sorted (a ∷ l) ≡ true
      → All (λ x. is_start g name x ≡ false) l
  none_behind name a [] p s = tt
  none_behind name a (b ∷ l) p s =
      let beyond = beyond_next name a.command b.command p (ground arith) in
      (
        start-prefix name b ∙ beyond_no_prefix name b.command beyond,
        none_behind name b l beyond (ground arith),
      )

  none_next :
      (name : Bytes) (c : Command) (l : List Command)
      → is_start g name c ≡ true
      → next_starts g name l ≡ false
      → is_sorted (c ∷ l) ≡ true
      → All (λ x. is_start g name x ≡ false) l
  none_next name c [] is other s = tt
  none_next name c (d ∷ l) is other s = (
    other,
    none_behind name d l
        (beyond_first name c.command d.command (sym (start-prefix name c) ∙ is)
          (sym (start-prefix name d) ∙ other) (ground arith))
        (ground arith),
  )

  sorted_rest : (c : Command) (l : List Command) → is_sorted (c ∷ l) ≡ true → is_sorted l ≡ true
  sorted_rest c [] s = refl
  sorted_rest c (d ∷ l) s = ground arith

  find-IsOnly :
      (l : List Command) (name : Bytes) (c : Command)
      → is_sorted l ≡ true
      → find_command g l name ≡ some c
      → IsOnly name l c
  unfolding find_command
  find-IsOnly [] name c s e = cc
  find-IsOnly (x ∷ l) name c s e = elim (Bool-cases (is_start g name x)) [
    | inl is ↦ elim (Bool-cases (next_starts g name l)) [
      | inl next ↦ absurd (let f = rw (is, next) at e in cc)
      | inr next ↦
          (let f : x ≡ c = (let f = rw (is, next) at e in cc) in
            (
              [],
              l,
              ap (λ r. r ∷ l) f,
              tt,
              ap (is_start g name) (sym f) ∙ is,
              none_next name x l is next s,
            ))
    ]
    | inr other ↦
        (let (pre, post, split, before, is, behind) =
            find-IsOnly l name c (sorted_rest x l s) (rw other at e) in
          (x ∷ pre, post, ap (λ r. x ∷ r) split, (other, before), is, behind))
  ]

  next_none :
      (name : Bytes) (l : List Command)
      → All (λ x. is_start g name x ≡ false) l
      → next_starts g name l ≡ false
  next_none name [] h = refl
  next_none name (x ∷ l) (h, t) = h

  IsOnly-find :
      (pre post : List Command) (name : Bytes) (c : Command)
      → All (λ x. is_start g name x ≡ false) pre
      → is_start g name c ≡ true
      → All (λ x. is_start g name x ≡ false) post
      → find_command g (pre ++ c ∷ post) name ≡ some c
  unfolding find_command
  IsOnly-find [] post name c before is behind = rw (is, next_none name post behind) refl
  IsOnly-find (x ∷ pre) post name c (other, before) is behind =
      rw other (IsOnly-find pre post name c before is behind)

  find_command_iff :
      (name : Bytes) (c : Command)
      → (find_command g root_commands name ≡ some c) ↔ IsOnly name root_commands c
  find_command_iff name c = (
    find-IsOnly root_commands name c root_commands_sorted,
    λ (pre, post, split, before, is, behind).
        ap (λ l. find_command g l name) split ∙ IsOnly-find pre post name c before is behind,
  )

  run_found-runs :
      (found : Option Command) (cmd : List Bytes) (f : Handler)
      → run_found g found cmd ≡ execute f cmd
      → (c : Command) × (found ≡ some c)
        × (ltb c.required_parameters (length cmd) ≡ true)
        × (c.execute ≡ f)
  unfolding run_found
  run_found-runs none cmd f e = cc
  run_found-runs (some c) cmd f e = elim (Bool-cases (ltb c.required_parameters (length cmd))) [
    | inl enough ↦ (c, refl, enough, let e = rw enough at e in cc)
    | inr few ↦ absurd (let e = rw few at e in cc)
  ]

  -- What a command of the control channel calls, with all its words: the function of the row that is
  -- the only one that starts with the command, in any case, if the arguments suffice. The code only
  -- looks at the next row, which is enough because the table is sorted.
  pub root_command_iff :
      (name : Bytes) (args : List Bytes) (f : Handler)
      → (root_command g (name ∷ args) ≡ execute f (name ∷ args)) ↔ (
          (c : Command) × IsOnly name root_commands c
          × (ltb c.required_parameters (length (name ∷ args)) ≡ true)
          × (c.execute ≡ f))
  unfolding root_command run_found
  root_command_iff name args f = (
    λ e.
        let (c, found, enough, same) =
          run_found-runs (find_command g root_commands name) (name ∷ args) f e in
        (c, (find_command_iff name c).0 found, enough, same),
    λ (c, only, enough, same). rw ((find_command_iff name c).1 only, enough, same) refl,
  )
