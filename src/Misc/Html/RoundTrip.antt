-- ===== src/Misc/Html/RoundTrip.antt =====
-- lib/misc.c: stripping an escaped text.
use bitl_steam.Common.{
  ℕ, ◌≡◌, refl, ap, ◌∙◌, Bool, true, false, Option, none, some, List, [], ◌∷◌, ◌++◌, Bytes, codes,
  tolower, take, map, strcmp_eq, strcmp_eq_iff, length, ◌==◌, ==_iff, if◌then◌else◌, arith,
  Bool-cases, inl, inr,
}
use bitl_steam.Glib.{Glib}
use bitl_steam.Misc.Html.{
  Htmlentity, ent, name_size, entity, round_entity, round, strip_from, strip_html, escape_char,
  escaped, escape_html,
}

-- The comparison computed.
starts_with : Bytes → Bytes → Bool
starts_with code s =
    strcmp_eq (map tolower (take (length code) code)) (map tolower (take (length code) s))

find : List Htmlentity → Bytes → Option Bytes
find [] s = none
find (e ∷ es) s = let rest = find es s in if starts_with e.code s then some e.is else rest

module _ (g : Glib) where
  strncasecmp-starts_with :
      (code s : Bytes) → g.strncasecmp code s (length code) ≡ starts_with code s
  unfolding starts_with
  strncasecmp-starts_with code s =
      let (to, from) = g.strncasecmp_iff code s (length code) in
      let (to', from') =
        strcmp_eq_iff (map tolower (take (length code) code))
          (map tolower (take (length code) s)) in
      ground arith

  entity-find : (es : List Htmlentity) (s : Bytes) → entity g es s ≡ find es s
  unfolding entity find
  entity-find [] s = refl
  entity-find (e ∷ es) s = rw (strncasecmp-starts_with e.code s, entity-find es s)

  strip_from-found :
      (t out : Bytes)
      → find ent t ≡ some out
      → strip_from g 0 (b'&' ∷ t) ≡ out ++ strip_from g (name_size t) t
  unfolding strip_from round round_entity
  strip_from-found t out h =
      (let found : entity g ent t ≡ some out = entity-find ent t ∙ h in rw found)

  strip_from-plain :
      (c : ℕ) (s : Bytes)
      → (c == b'<') ≡ false
      → (c == b'&') ≡ false
      → strip_from g 0 (c ∷ s) ≡ c ∷ strip_from g 0 s
  unfolding strip_from round
  strip_from-plain c s h k = rw (h, k, round)

  strip_from-read :
      (c d : ℕ) (s name : Bytes)
      → (c == d) ≡ true
      → find ent (name ++ s) ≡ some (d ∷ [])
      → strip_from g (name_size (name ++ s)) (name ++ s) ≡ strip_from g 0 s
      → strip_from g 0 (b'&' ∷ name ++ s) ≡ c ∷ strip_from g 0 s
  strip_from-read c d s name h found behind =
      let same : c ≡ d = (==_iff c d).0 h in
      strip_from-found (name ++ s) (d ∷ []) found ∙ (rw (behind, same))

  -- The text of each of the four entities is read back, and the loop goes on behind it.
  strip_from-escape_char :
      (c : ℕ) (s : Bytes) → strip_from g 0 (escape_char c ++ s) ≡ c ∷ strip_from g 0 s
  unfolding escape_char strip_from name_size find starts_with ent
  strip_from-escape_char c s = elim (Bool-cases (c == b'&')) [
    | inl is ↦ (rw (is) (strip_from-read c b'&' s (codes "amp;") is refl refl))
    | inr no_amp ↦ elim (Bool-cases (c == b'<')) [
      | inl is ↦ (rw (no_amp, is) (strip_from-read c b'<' s (codes "lt;") is refl refl))
      | inr no_lt ↦ elim (Bool-cases (c == b'>')) [
        | inl is ↦ (rw (no_amp, no_lt, is) (strip_from-read c b'>' s (codes "gt;") is refl refl))
        | inr no_gt ↦ elim (Bool-cases (c == b'"')) [
          | inl is ↦
              (rw (no_amp, no_lt, no_gt, is)
                (strip_from-read c b'"' s (codes "quot;") is refl refl))
          | inr no_quot ↦ rw (no_amp, no_lt, no_gt, no_quot) (strip_from-plain c s no_lt no_amp)
        ]
      ]
    ]
  ]

  strip_from-escaped : (s : Bytes) → strip_from g 0 (escaped s) ≡ s
  unfolding escaped
  strip_from-escaped [] = unfold strip_from in refl
  strip_from-escaped (c ∷ s) =
      strip_from-escape_char c (escaped s) ∙ ap (λ r. c ∷ r) (strip_from-escaped s)

  -- Every string has an escaped text, and stripping that gives the string.
  pub strip_html-escape_html :
      (s : Bytes) → (t : Bytes) × (escape_html (some s) ≡ some t) × (strip_html g t ≡ s)
  unfolding strip_html escape_html
  strip_html-escape_html s = (escaped s, refl, strip_from-escaped s)
