-- ===== src/Root/Split.antt =====
-- lib/misc.c: a command line that is written for `split_command_parts`.
use bitl_steam.Common.{
  append-nil, ℕ, ◌-◌, ◌≡◌, ◌<◌, refl, ap, ◌∙◌, Bool, false, ◌||◌, List, [], ◌∷◌, ◌++◌, Bytes, codes,
  length, ◌==◌, if◌then◌else◌, InString, All, arith, Bool-cases, inl, inr,
}
use bitl_steam.Root.{
  Mode, text, escaped, closed, gap, Act, keep, start, leave, begin, is_quote, is_escape, step,
  combine, parts, split_command_parts,
}

abbrev is_special : ℕ → Bool
is_special c = c == 32 || c == b'\\' || is_quote c

-- A backslash goes before spaces, quotes and backslashes.
unfoldable pub escape : Bytes → Bytes
escape [] = []
escape (c ∷ s) = let rest = escape s in if is_special c then b'\\' ∷ c ∷ rest else c ∷ rest

abbrev pub word : Bytes → Bytes
word [] = codes "\"\""
word (c ∷ s) = escape (c ∷ s)

unfoldable pub words : List Bytes → Bytes
words [] = []
words (a ∷ l) = 32 ∷ word a ++ words l

unfoldable pub command_text : Bytes → List Bytes → Bytes
command_text name args = escape name ++ words args

no_escape : (q c : ℕ) (s : Bytes) → (c == b'\\') ≡ false → is_escape q c s ≡ false
no_escape q c [] e = refl
no_escape q c (d ∷ s) e = rw e refl

-- What stands in front of a result.
abbrev in_front : Bytes → Bytes × List Bytes → Bytes × List Bytes
in_front a r = (a ++ r.0, r.1)

step-plain :
    (room c : ℕ) (s : Bytes)
    → InString c
    → is_special c ≡ false
    → step room (text 0) c s ≡ (keep, room, text 0)
unfolding step
step-plain room c s h e =
    let space : (c == 32) ≡ false = ground arith in
    let zero_byte : (c == 0) ≡ false = ground arith in
    rw (space, no_escape 0 c s (ground arith), zero_byte) refl

parts-escape :
    (room : ℕ) (a rest : Bytes)
    → All InString a
    → parts room (text 0) (escape a ++ rest) ≡ in_front a (parts room (text 0) rest)
unfolding escape parts step combine
parts-escape room [] rest h = refl
parts-escape room (c ∷ a) rest (h, t) = elim (Bool-cases (is_special c)) [
  | inl e ↦ rw e (ap (in_front (c ∷ [])) (parts-escape room a rest t))
  | inr e ↦ rw e (
      ap (λ now. combine now.0 c (parts now.1 now.2 (escape a ++ rest)))
        (step-plain room c (escape a ++ rest) h e)
      ∙ ap (in_front (c ∷ [])) (parts-escape room a rest t))
]

-- One round of the loop, once it is known what happens in it.
go_on :
    (room c : ℕ) (m : Mode) (s : Bytes) (now : Act × ℕ × Mode)
    → step room m c s ≡ now
    → parts room m (c ∷ s) ≡ combine now.0 c (parts now.1 now.2 s)
unfolding parts
go_on room c m s now e = ap (λ now. combine now.0 c (parts now.1 now.2 s)) e

step-gap_escape :
    (room c : ℕ) (s : Bytes)
    → (room - 1 == 0) ≡ false
    → step room gap b'\\' (c ∷ s) ≡ (begin, room - 1, escaped 0)
unfolding step
step-gap_escape room c s more = rw more refl

step-gap_plain :
    (room c : ℕ) (s : Bytes)
    → (room - 1 == 0) ≡ false
    → is_special c ≡ false
    → step room gap c s ≡ (start, room - 1, text 0)
unfolding step
step-gap_plain room c s more e =
    let space : (c == 32) ≡ false = ground arith in
    let quote : is_quote c ≡ false = ground arith in
    rw (space, quote, no_escape 0 c s (ground arith), more) refl

step-gap_quote :
    (room c : ℕ) (s : Bytes)
    → (room - 1 == 0) ≡ false
    → step room gap b'"' (c ∷ s) ≡ (begin, room - 1, text b'"')
unfolding step
step-gap_quote room c s more = rw more refl

step-quote : (room : ℕ) (s : Bytes) → step room (text b'"') b'"' s ≡ (leave, room, closed)
unfolding step
step-quote room s = rw (no_escape b'"' b'"' s refl) refl

-- A word that is not the last, with what follows it.
gap-word :
    (room c : ℕ) (a rest : Bytes)
    → (room - 1 == 0) ≡ false
    → All InString (c ∷ a)
    → parts room gap (escape (c ∷ a) ++ rest)
      ≡ combine begin c (in_front (c ∷ a) (parts (room - 1) (text 0) rest))
unfolding escape parts step combine
gap-word room c a rest more (h, t) =
    let behind = parts-escape (room - 1) a rest t in
    elim (Bool-cases (is_special c)) [
      | inl e ↦ rw e (
          go_on room b'\\' gap (c ∷ escape a ++ rest) _
            (step-gap_escape room c (escape a ++ rest) more)
          ∙ ap (λ r. combine begin c (in_front (c ∷ []) r)) behind)
      | inr e ↦ rw e (
          go_on room c gap (escape a ++ rest) _ (step-gap_plain room c (escape a ++ rest) more e)
          ∙ ap (combine start c) behind)
    ]

closed-words :
    (room : ℕ) (l : List Bytes) → parts room closed (words l) ≡ parts room (text 0) (words l)
unfolding words parts step
closed-words room [] = refl
closed-words room (a ∷ l) = refl

text-words :
    (room : ℕ) (a : Bytes) (l : List Bytes)
    → parts room (text 0) (words (a ∷ l)) ≡ parts room gap (word a ++ words l)
unfolding words parts step combine
text-words room a l = refl

parts-words :
    (room : ℕ) (l : List Bytes)
    → length l < room
    → All (All InString) l
    → parts room (text 0) (words l) ≡ ([], l)
parts-words room [] h b = unfold words parts in refl
parts-words room ([] ∷ l) h (_, b) =
    let more : (room - 1 == 0) ≡ false = ground arith in
    let rest = parts-words (room - 1) l (omega arith) b in
    text-words room [] l
    ∙ go_on room b'"' gap (b'"' ∷ words l) _ (step-gap_quote room b'"' (words l) more)
    ∙ ap (combine begin b'"') (
        go_on (room - 1) b'"' (text b'"') (words l) _ (step-quote (room - 1) (words l))
        ∙ ap (combine leave b'"') (closed-words (room - 1) l ∙ rest))
    ∙ (unfold combine in refl)
parts-words room ((c ∷ a) ∷ l) h (t, b) =
    let more : (room - 1 == 0) ≡ false = ground arith in
    let rest = parts-words (room - 1) l (omega arith) b in
    text-words room (c ∷ a) l
    ∙ gap-word room c a (words l) more t
    ∙ ap (λ r. combine begin c (in_front (c ∷ a) r)) rest
    ∙ (unfold combine in ap (λ r. ([], r ∷ l)) (append-nil (c ∷ a)))

-- A command of up to 15 words, which are C strings, is split into them, if in its line spaces, quotes
-- and backslashes have a backslash before them and empty arguments are a pair of quotes.
pub split_command_parts-command_text :
    (name : Bytes) (args : List Bytes)
    → length args < 15
    → All InString name
    → All (All InString) args
    → split_command_parts (command_text name args) ≡ name ∷ args
unfolding split_command_parts command_text
split_command_parts-command_text name args h t b =
    ap (λ r. r.0 ∷ r.1)
      (parts-escape 15 name (words args) t ∙ ap (in_front name) (parts-words 15 args h b))
    ∙ ap (λ r. r ∷ args) (append-nil name)
