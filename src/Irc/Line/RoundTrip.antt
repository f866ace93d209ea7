-- ===== src/Irc/Line/RoundTrip.antt =====
-- irc.c: reading a line that was built.
use bitl_steam.Common.{
  ◌≡◌, ◌≢◌, refl, ap, Bool, true, false, some, List, [], ◌∷◌, ◌++◌, Bytes, arith, contains, ◌==◌,
  Bool-cases, inl, inr, ◌⊎◌, ◌∙◌,
}
use bitl_steam.Irc.Line.{
  skip_prefix, push, trailing, split_args, or_null, parse_line, joined, crlf, build_line,
}

abbrev pub starts_with_colon : Bytes → Bool
starts_with_colon [] = false
starts_with_colon (c ∷ s) = c == b':'

abbrev pub has_space : Bytes → Bool
has_space a = contains a b' '

-- An argument that may stand before others: no space, and no colon in front.
abbrev pub IsMiddle : Bytes → Type 0
IsMiddle a = (has_space a ≡ false) × (starts_with_colon a ≡ false)

-- A last argument: a colon may stand in front only if it has a space.
abbrev pub IsLast : Bytes → Type 0
IsLast a = (has_space a ≡ true) ⊎ (starts_with_colon a ≡ false)

abbrev pub AreArgs : List Bytes → Type 0
AreArgs [] = Unit
AreArgs (a ∷ []) = IsLast a
AreArgs (a ∷ b ∷ more) = IsMiddle a × AreArgs (b ∷ more)

-- Splitting the text of an argument with no space, then of the rest.
split-word_end : (a : Bytes) → has_space a ≡ false → split_args a ≡ a ∷ []
unfolding split_args push
split-word_end [] h = refl
split-word_end (c ∷ a) h = ground (arith, split-word_end a)

split-word :
    (a s : Bytes) → has_space a ≡ false → split_args (a ++ b' ' ∷ s) ≡ a ∷ trailing s (split_args s)
unfolding split_args push
split-word [] s h = refl
split-word (c ∷ a) s h = ground (arith, split-word a s)

trailing_plain :
    (s : Bytes) (rest : List Bytes) → starts_with_colon s ≡ false → trailing s rest ≡ rest
unfolding trailing
trailing_plain [] rest h = refl
trailing_plain (c ∷ s) rest h = ground arith

middle_start :
    (a s : Bytes) → starts_with_colon a ≡ false → starts_with_colon (a ++ b' ' ∷ s) ≡ false
middle_start [] s h = refl
middle_start (c ∷ a) s h = h

-- The arguments behind a space are read as they were built.
trailing-joined :
    (more : List Bytes) (b : Bytes)
    → AreArgs (b ∷ more)
    → trailing (joined (b ∷ more)) (split_args (joined (b ∷ more))) ≡ b ∷ more
unfolding joined
trailing-joined [] b h = elim (Bool-cases (has_space b)) [
  | inl e ↦ rw e (unfold trailing in refl)
  | inr e ↦ rw e (trailing_plain b (split_args b) (ground (arith, h)) ∙ split-word_end b e)
]
trailing-joined (d ∷ more) b ((plain, front), h) =
    trailing_plain (b ++ b' ' ∷ joined (d ∷ more)) _ (middle_start b _ front)
    ∙ split-word b (joined (d ∷ more)) plain
    ∙ ap (λ r. b ∷ r) (trailing-joined more d h)

-- A command that can be sent: a first word that is not empty, with no space and no colon in front,
-- then middle arguments and a last one.
abbrev pub IsCommand : List Bytes → Type 0
IsCommand [] = ⊥
IsCommand (a ∷ []) = IsMiddle a × (a ≢ [])
IsCommand (a ∷ b ∷ more) = IsMiddle a × (a ≢ []) × AreArgs (b ∷ more)

-- The text of a built line without the line end.
abbrev pub line_text : List Bytes → Bytes
line_text cmd = joined cmd

skip_prefix_word : (a s : Bytes) → IsMiddle a → a ≢ [] → skip_prefix (a ++ s) ≡ a ++ s
unfolding skip_prefix
skip_prefix_word [] s h ne = absurd (ne refl)
skip_prefix_word (c ∷ a) s h ne = ground arith

or_null_word : (a s : Bytes) → a ≢ [] → or_null (a ++ s) ≡ some (split_args (a ++ s))
unfolding or_null
or_null_word [] s ne = absurd (ne refl)
or_null_word (c ∷ a) s ne = refl

parse_line-word : (a : Bytes) → IsMiddle a → a ≢ [] → parse_line a ≡ some (a ∷ [])
unfolding parse_line
parse_line-word [] m ne = absurd (ne refl)
parse_line-word (c ∷ a) m ne = ground (arith, split-word_end (c ∷ a) m.0)

-- A line can be built of every command whose arguments have no space and no colon in front, the
-- first not empty, and the last of which may have spaces, and then a colon in front too. Without its
-- line end it is read back as the same arguments.
pub parse_line-build_line :
    (cmd : List Bytes)
    → IsCommand cmd
    → (line : Bytes) × (build_line cmd ≡ some (line ++ crlf)) × (parse_line line ≡ some cmd)
unfolding build_line parse_line
parse_line-build_line [] h = absurd h
parse_line-build_line (a ∷ []) (m, ne) = (a, rw m.0 refl, parse_line-word a m ne)
parse_line-build_line (a ∷ b ∷ more) (m, ne, h) = (
  a ++ b' ' ∷ joined (b ∷ more),
  refl,
  rw (skip_prefix_word a (b' ' ∷ joined (b ∷ more)) m ne) (
      or_null_word a (b' ' ∷ joined (b ∷ more)) ne
      ∙ ap some
          (split-word a (joined (b ∷ more)) m.0 ∙ ap (λ r. a ∷ r) (trailing-joined more b h))),
)

-- A last argument with a colon in front and no space is built with no second colon, and is read back
-- without the one that it had.
pub parse_line-build_line_colon :
    (a s : Bytes)
    → IsMiddle a
    → a ≢ []
    → has_space s ≡ false
    → (line : Bytes) × (build_line (a ∷ (b':' ∷ s) ∷ []) ≡ some (line ++ crlf))
      × (parse_line line ≡ some (a ∷ s ∷ []))
unfolding build_line parse_line joined
parse_line-build_line_colon a s m ne plain = (
  a ++ b' ' ∷ b':' ∷ s,
  rw plain refl,
  rw (skip_prefix_word a (b' ' ∷ b':' ∷ s) m ne) (
      or_null_word a (b' ' ∷ b':' ∷ s) ne
      ∙ ap some (split-word a (b':' ∷ s) m.0 ∙ (unfold trailing in refl))),
)
