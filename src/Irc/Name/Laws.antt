-- ===== src/Irc/Name/Laws.antt =====
-- irc_channel.c: when two names are the same channel, and how a text is made a name.
use bitl_steam.Common.{
  ℕ, suc, ◌<◌, ◌≤◌, ◌≡◌, ◌≢◌, ◌↔◌, refl, ap, Bool, true, false, [], ◌∷◌, Bytes, map, length, suc,
  Bool-cases, inl, inr, contains, ltb, all, All, InString, arith,
}
use bitl_steam.Nick.{equal}
use bitl_steam.Nick.Compare.{flip}
use bitl_steam.Irc.Name.{
  ctypes, is_name_char, is_kept, irc_channel_name_ok, irc_channel_name_strip, case_map, difference,
  compare_names, irc_channel_name_cmp,
}

-- Characters behind the first that `case_map` keeps apart from the end of a name.
case_map_some : (c : ℕ) → is_name_char c ≡ true → case_map c ≢ 0
unfolding case_map
case_map_some c h = ground arith

compare_names_iff :
    (a b : Bytes)
    → all is_name_char a ≡ true
    → all is_name_char b ≡ true
    → (compare_names a b ≡ equal) ↔ (map case_map a ≡ map case_map b)
unfolding compare_names difference
compare_names_iff [] [] ha hb = (λ e. refl, λ e. refl)
compare_names_iff [] (y ∷ b) ha hb = let some_y = case_map_some y in (λ e. ground arith, λ e. cc)
compare_names_iff (x ∷ a) [] ha hb = let some_x = case_map_some x in (λ e. ground arith, λ e. cc)
compare_names_iff (x ∷ a) (y ∷ b) ha hb =
    let (to, from) = compare_names_iff a b (ground arith) (ground arith) in
    let some_x = case_map_some x in let some_y = case_map_some y in ground arith

strip_char : (name : Bytes) → all is_name_char (irc_channel_name_strip name) ≡ true
unfolding irc_channel_name_strip
strip_char [] = refl
strip_char (c ∷ name) = let rest = strip_char name in ground arith

abbrev pub is_ascii : ℕ → Bool
is_ascii c = ltb c 128

length-strip : (name : Bytes) → length (irc_channel_name_strip name) ≤ length name
unfolding irc_channel_name_strip
length-strip [] = omega arith
length-strip (c ∷ name) = let rest = length-strip name in ground arith

strip_same :
    (name : Bytes)
    → all is_name_char name ≡ true
    → (irc_channel_name_strip name ≡ name) ↔ (all is_ascii name ≡ true)
unfolding irc_channel_name_strip
strip_same [] h = (λ e. refl, λ e. refl)
strip_same (c ∷ name) h = elim (Bool-cases (is_ascii c)) [
  | inl e ↦
      (let rest = strip_same name (ground arith) in
        let kept : is_kept c ≡ true = ground arith in
        rw (kept, e) (λ q. rest.0 (cons_tail q), λ q. ap (λ l. c ∷ l) (rest.1 q)))
  | inr e ↦
      (let kept : is_kept c ≡ false = ground arith in
        rw (kept, e) (λ q. absurd (shorter c name q), λ q. cc))
]
  where
    cons_tail : {x y : ℕ} {l m : Bytes} → x ∷ l ≡ y ∷ m → l ≡ m
    cons_tail q = cc

    shorter : (c : ℕ) (name : Bytes) → irc_channel_name_strip name ≢ c ∷ name
    shorter c name q =
        let short = length-strip name in
        let long : length (irc_channel_name_strip name) ≡ suc (length name) = ap length q in
        omega (arith, short, long)

ok_chars :
    (name : Bytes)
    → All InString name
    → irc_channel_name_ok name ≡ true
    → all is_name_char name ≡ true
unfolding irc_channel_name_ok
ok_chars [] z h = cc
ok_chars (c ∷ name) ((low, high), z) h = ground arith

flip_names : (a b : Bytes) → compare_names b a ≡ flip (compare_names a b)
unfolding compare_names difference
flip_names [] [] = refl
flip_names [] (y ∷ b) = ground arith
flip_names (x ∷ a) [] = ground arith
flip_names (x ∷ a) (y ∷ b) = let rest = flip_names a b in ground arith

-- `irc_channel_name_cmp` of two names that `irc_channel_name_ok` accepts is 0 exactly if they are
-- the same up to the case of RFC 1459, and has the opposite sign when they are swapped. With a text that is no name it
-- is never 0.
pub irc_channel_name_cmp_lem :
    (a b : Bytes)
    → All InString a
    → All InString b
    → (irc_channel_name_ok a ≡ true
        → irc_channel_name_ok b ≡ true
        → ((irc_channel_name_cmp a b ≡ equal) ↔ (map case_map a ≡ map case_map b))
          × (irc_channel_name_cmp b a ≡ flip (irc_channel_name_cmp a b)))
      × (irc_channel_name_cmp a b ≡ equal
          → (irc_channel_name_ok a ≡ true) × (irc_channel_name_ok b ≡ true))
unfolding irc_channel_name_cmp
irc_channel_name_cmp_lem a b za zb = (
  λ ok_a ok_b.
      rw (ok_a, ok_b)
        (compare_names_iff a b (ok_chars a za ok_a) (ok_chars b zb ok_b), flip_names a b),
  λ e. ground arith,
)

-- A text that starts like a channel is made an acceptable name by `irc_channel_name_strip`. It
-- leaves an acceptable name as it is exactly if all its characters are ASCII: others, which
-- `irc_channel_name_ok` accepts, are dropped.
pub irc_channel_name_strip_ok :
    (c : ℕ) (name : Bytes)
    → 0 < c
    → contains ctypes c ≡ true
    → (irc_channel_name_ok (irc_channel_name_strip (c ∷ name)) ≡ true)
      × (irc_channel_name_ok (c ∷ name) ≡ true
          → (irc_channel_name_strip (c ∷ name) ≡ c ∷ name) ↔ (all is_ascii (c ∷ name) ≡ true))
unfolding irc_channel_name_ok
irc_channel_name_strip_ok c name low h =
    let rest = strip_char name in
    let kept : is_kept c ≡ true = ground arith in
    let plain : is_name_char c ≡ true = ground arith in
    (
      unfold irc_channel_name_strip in rw (kept, h, rest) refl,
      λ ok.
          strip_same (c ∷ name)
            (let behind : all is_name_char name ≡ true = ground arith in rw (plain, behind) refl),
    )
