-- ===== src/Misc/Html.antt =====
-- lib/misc.c: `strip_html` and `escape_html`.
mod Bounds
mod RoundTrip
mod Examples
use bitl_steam.Common.{
  ℕ, zero, suc, ◌+◌, Bool, true, false, ◌&&◌, ◌||◌, Option, none, some, List, [], ◌∷◌, ◌++◌, Bytes,
  codes, is_alpha, length, ◌==◌, if◌then◌else◌,
}
use bitl_steam.Glib.{Glib}

-- A row of the table of entities: `code`, `is`.
pub record Htmlentity : Type 0 where
  pub code : Bytes
  pub is : Bytes

-- A row for a letter outside ASCII, with the two bytes of its UTF-8 form.
abbrev letter : Bytes → ℕ → Htmlentity
letter c b = record { code = c; is = 195 ∷ b ∷ [] }

-- The table `ent`, without the empty row at its end.
unfoldable pub ent : List Htmlentity
ent =
    record { code = codes "lt"; is = codes "<" }
    ∷ record { code = codes "gt"; is = codes ">" }
    ∷ record { code = codes "amp"; is = codes "&" }
    ∷ record { code = codes "apos"; is = codes "'" }
    ∷ record { code = codes "quot"; is = b'"' ∷ [] }
    ∷ letter (codes "aacute") 161
    ∷ letter (codes "eacute") 169
    ∷ letter (codes "iacute") 169
    ∷ letter (codes "oacute") 179
    ∷ letter (codes "uacute") 186
    ∷ letter (codes "agrave") 160
    ∷ letter (codes "egrave") 168
    ∷ letter (codes "igrave") 172
    ∷ letter (codes "ograve") 178
    ∷ letter (codes "ugrave") 185
    ∷ letter (codes "acirc") 162
    ∷ letter (codes "ecirc") 170
    ∷ letter (codes "icirc") 174
    ∷ letter (codes "ocirc") 180
    ∷ letter (codes "ucirc") 187
    ∷ letter (codes "auml") 164
    ∷ letter (codes "euml") 171
    ∷ letter (codes "iuml") 175
    ∷ letter (codes "ouml") 182
    ∷ letter (codes "uuml") 188
    ∷ record { code = codes "nbsp"; is = codes " " }
    ∷ []

unfoldable pub put : ℕ → Option Bytes → Option Bytes
put c none = none
put c (some t) = some (c ∷ t)

-- What follows up to the next `>`, if there is one.
unfoldable pub tag : Bytes → Option Bytes
tag [] = none
tag (c ∷ s) = let rest = tag s in if c == b'>' then some [] else put c rest

-- The letters of a name, with the semicolon behind them.
unfoldable pub name_size : Bytes → ℕ
name_size [] = 0
name_size (c ∷ s) =
    let rest = name_size s in if is_alpha c then suc rest else if c == b';' then 1 else 0

abbrev pub starts_tag : Bytes → Bool
starts_tag [] = false
starts_tag (c ∷ s) = is_alpha c || c == b'/'

module _ (g : Glib) where
  -- The formatting codes of IRC for the tags that have one.
  unfoldable pub tag_code : Bytes → ℕ → Bytes
  tag_code s taglen =
      if g.strncasecmp s (codes "b") taglen
      then 2 ∷ []
      else if g.strncasecmp s (codes "/b") taglen
      then 2 ∷ []
      else if g.strncasecmp s (codes "i") taglen
      then 31 ∷ []
      else if g.strncasecmp s (codes "/i") taglen
      then 31 ∷ []
      else if g.strncasecmp s (codes "br") taglen
      then 10 ∷ []
      else []

  -- The first row whose code the text starts with.
  unfoldable pub entity : List Htmlentity → Bytes → Option Bytes
  entity [] s = none
  entity (e ∷ es) s =
      let rest = entity es s in if g.strncasecmp e.code s (length e.code) then some e.is else rest

  -- What a round writes, and how much of what follows its byte it takes.
  unfoldable pub round_tag : ℕ → Bytes → Option Bytes → Bytes × ℕ
  round_tag c s none = (c ∷ [], 0)
  round_tag c s (some t) = (tag_code s (length t), suc (length t))

  unfoldable pub round_entity : ℕ → Bytes → Option Bytes → Bytes × ℕ
  round_entity c s none = (c ∷ [], 0)
  round_entity c s (some out) = (out, name_size s)

  -- One round of the loop at the byte `c`.
  unfoldable pub round : ℕ → Bytes → Bytes × ℕ
  round c s =
      if c == b'<' && starts_tag s
      then round_tag c s (tag s)
      else if c == b'&'
      then round_entity c s (entity ent s)
      else (c ∷ [], 0)

  -- The loop, with the bytes that `in` still jumps over.
  unfoldable pub strip_from : ℕ → Bytes → Bytes
  strip_from n [] = []
  strip_from (suc n) (c ∷ s) = strip_from n s
  strip_from zero (c ∷ s) = let (out, n) = round c s in out ++ strip_from n s

  unfoldable pub strip_html : Bytes → Bytes
  strip_html s = strip_from 0 s

unfoldable pub escape_char : ℕ → Bytes
escape_char c =
    if c == b'&'
    then codes "&amp;"
    else if c == b'<'
    then codes "&lt;"
    else if c == b'>'
    then codes "&gt;"
    else if c == b'"'
    then codes "&quot;"
    else c ∷ []

unfoldable pub escaped : Bytes → Bytes
escaped [] = []
escaped (c ∷ s) = escape_char c ++ escaped s

-- `none` is the null pointer.
unfoldable pub escape_html : Option Bytes → Option Bytes
escape_html none = none
escape_html (some s) = some (escaped s)
