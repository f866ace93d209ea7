-- ===== src/Misc/Html/Bounds.antt =====
-- lib/misc.c: the buffer of `strip_html`.
use bitl_steam.Common.{
  ℕ, zero, suc, ◌+◌, ◌<◌, ◌≤◌, ◌≡◌, refl, Bool, true, false, ◌&&◌, Option, none, some, List, [],
  ◌∷◌, Bytes, is_lower, tolower, length, length-append, All, ◌==◌, arith, Bool-cases, inl, inr,
}
use bitl_steam.Glib.{Glib}
use bitl_steam.Misc.Html.{
  Htmlentity, ent, put, tag, name_size, starts_tag, tag_code, entity, round_tag, round_entity,
  round, strip_from, strip_html,
}

put-size :
    (c : ℕ) (o : Option Bytes) (t : Bytes) (n : ℕ)
    → ((u : Bytes) → o ≡ some u → length u < n)
    → put c o ≡ some t
    → length t < suc n
unfolding put
put-size c none t n h e = absurd (cc)
put-size c (some u) [] n h e = omega arith
put-size c (some u) (x ∷ t) n h e = (let small = h t (cc) in omega arith)

tag-size : (s t : Bytes) → tag s ≡ some t → length t < length s
unfolding tag
tag-size [] t e = absurd (cc)
tag-size (c ∷ s) t e = let smaller = put-size c (tag s) t (length s) (tag-size s) in ground arith

name_size-length : (s : Bytes) → name_size s ≤ length s
unfolding name_size
name_size-length [] = omega arith
name_size-length (c ∷ s) = (let rest = name_size-length s in ground arith)

-- What each row of the table keeps to.
starts_lower : Bytes → Bool
starts_lower [] = false
starts_lower (c ∷ s) = is_lower c

abbrev IsShort : Htmlentity → Type 0
IsShort e = (starts_lower e.code ≡ true) × (length e.is ≤ 2)

ent-IsShort : All IsShort ent
unfolding ent starts_lower
ent-IsShort = ground arith

module _ (g : Glib) where
  length-tag_code : (s : Bytes) (n : ℕ) → length (tag_code g s n) ≤ 1
  unfolding tag_code
  length-tag_code s n = ground arith

  matched :
      (code s : Bytes)
      → starts_lower code ≡ true
      → g.strncasecmp code s (length code) ≡ true
      → 0 < name_size s
  unfolding starts_lower name_size
  matched [] s low e = absurd (cc)
  matched (x ∷ code) [] low e =
      (let f = (g.strncasecmp_iff (x ∷ code) [] (length (x ∷ code))).0 e in absurd (cc))
  matched (x ∷ code) (y ∷ s) low e =
      let heads : tolower x ≡ tolower y =
        (let f = (g.strncasecmp_iff (x ∷ code) (y ∷ s) (length (x ∷ code))).0 e in cc) in
      ground arith

  entity-short :
      (es : List Htmlentity) (s out : Bytes)
      → All IsShort es
      → entity g es s ≡ some out
      → (length out ≤ 2) × (0 < name_size s)
  unfolding entity
  entity-short [] s out h e = absurd (cc)
  entity-short (x ∷ es) s out ((low, short), h) e =
      let rest = entity-short es s out h in let here = matched x.code s low in ground arith

  -- A round writes no more than it reads, and reads no more than there is.
  abbrev Fits : Bytes → Bytes × ℕ → Type 0
  Fits s r = (length r.0 ≤ suc r.1) × (r.1 ≤ length s)

  round_tag-Fits : (c : ℕ) (s : Bytes) (o : Option Bytes) → tag s ≡ o → Fits s (round_tag g c s o)
  unfolding round_tag
  round_tag-Fits c s none e = omega arith
  round_tag-Fits c s (some t) e = omega (arith, tag-size s t e, length-tag_code s (length t))

  round_entity-Fits :
      (c : ℕ) (s : Bytes) (o : Option Bytes) → entity g ent s ≡ o → Fits s (round_entity g c s o)
  unfolding round_entity
  round_entity-Fits c s none e = omega arith
  round_entity-Fits c s (some out) e =
      let (short, some_name) = entity-short ent s out ent-IsShort e in
      omega (arith, name_size-length s)

  round-Fits : (c : ℕ) (s : Bytes) → Fits s (round g c s)
  unfolding round
  round-Fits c s =
      let by_tag = round_tag-Fits c s (tag s) refl in
      let by_entity = round_entity-Fits c s (entity g ent s) refl in
      elim (Bool-cases (c == b'<' && starts_tag s)) [
        | inl is_tag ↦ (rw is_tag by_tag)
        | inr no_tag ↦ elim (Bool-cases (c == b'&')) [
          | inl is_name ↦ (rw (no_tag, is_name) by_entity)
          | inr no_name ↦ (rw (no_tag, no_name) (omega arith))
        ]
      ]

  length-strip_from : (n : ℕ) (s : Bytes) → n ≤ length s → length (strip_from g n s) + n ≤ length s
  unfolding strip_from
  length-strip_from zero [] h = omega arith
  length-strip_from (suc n) [] h = absurd (omega arith)
  length-strip_from (suc n) (c ∷ s) h = omega (arith, length-strip_from n s (omega arith))
  length-strip_from zero (c ∷ s) h =
      let (small, fits) = round-Fits c s in
      let rest = length-strip_from (round g c s).1 s fits in
      omega (arith, length-append (round g c s).0 (strip_from g (round g c s).1 s))

  -- The stripped text is no longer than the text, so it fits the buffer of `strlen(in) + 1` bytes
  -- and the string it is copied back into.
  pub length-strip_html : (s : Bytes) → length (strip_html g s) ≤ length s
  unfolding strip_html
  length-strip_html s = omega (arith, length-strip_from 0 s (omega arith))
