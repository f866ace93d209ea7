-- ===== src/Ini/RoundTrip.antt =====
-- lib/ini.c: whole files.
use bitl_steam.Common.{
  ℕ, zero, suc, ◌+◌, ◌<◌, ◌≤◌, ◌≡◌, ◌≢◌, refl, ap, sym, ◌∙◌, true, Option, none, some, List, [],
  ◌∷◌, ◌++◌, append-nil, Bytes, length, length-append, leb, arith, All, All-append, contains, ◌==◌,
  Bool-cases, inl, inr, if◌then◌else◌,
}
use bitl_steam.Common.Split.{in_front, split_at, Lacks, split_at-append}
use bitl_steam.Ini.{
  strip_start, strip_end, is_empty, ini_strip_whitespace, Entry, keyed, section, noise, section_of,
  stripped_line, parse_line, first_line, Ini, ini_open, after_line, read_from, ini_read,
  next_entries, all_entries,
}
use bitl_steam.Ini.Lines.{
  IsPad, IsPad-Lacks, strip_start-append, strip_end-pad, strip_end-append, strip_padded,
  comment_text, cut_comment, Lacks-of, pad_newline,
}
use bitl_steam.Ini.Setting.{Setting, IsSetting, setting_text, setting-Lacks_newline, parse_setting}

-- What may stand in a line, each with a comment behind it: a setting, a section, or nothing.
pub data Item : Type 0 where
  sets : Setting → Item
  heads : Bytes → Bytes → Bytes → Option Bytes → Item
  says : Bytes → Option Bytes → Item

abbrev pub heading_text : Bytes → Bytes → Bytes → Bytes
heading_text indent name trail = indent ++ b'[' ∷ (name ++ b']' ∷ trail)

abbrev pub item_text : Item → Bytes
item_text (sets s) = setting_text s ++ comment_text s.comment
item_text (heads indent name trail comment) = heading_text indent name trail ++ comment_text comment
item_text (says pad comment) = pad ++ comment_text comment

abbrev pub IsComment : Option Bytes → Type 0
IsComment none = Unit
IsComment (some t) = Lacks 10 t

abbrev pub IsItem : Item → Type 0
IsItem (sets s) = IsSetting s × IsComment s.comment
IsItem (heads indent name trail comment) =
    IsPad indent
    × (All (λ x. (x ≢ b']') × (x ≢ b'#') × (x ≢ 10)) name × (IsPad trail × IsComment comment))
IsItem (says pad comment) = IsPad pad × IsComment comment

abbrev pub file_text : List Item → Bytes
file_text [] = []
file_text (i ∷ l) = item_text i ++ 10 ∷ file_text l

-- What stands in front of the first dot, and behind it.
abbrev pub before_dot : Bytes → Bytes
before_dot [] = []
before_dot (c ∷ s) = if c == b'.' then [] else c ∷ before_dot s

abbrev pub behind_dot : Bytes → Bytes
behind_dot [] = []
behind_dot (c ∷ s) = if c == b'.' then s else behind_dot s

-- The entry of a setting: the section that its key names with a dot, or the current one.
abbrev pub key_entry : Bytes → Bytes → Bytes → Entry
key_entry c_section key value =
    if contains key b'.'
    then record { section = before_dot key; key = behind_dot key; value = value }
    else record { section = c_section; key = key; value = value }

split_at_dot :
    (key : Bytes)
    → split_at b'.' key
      ≡ (if contains key b'.' then some (before_dot key, behind_dot key) else none)
unfolding split_at in_front
split_at_dot [] = refl
split_at_dot (c ∷ s) = elim (Bool-cases (c == b'.')) [
  | inl e ↦ rw e refl
  | inr e ↦
      rw (e, split_at_dot s)
        (elim (Bool-cases (contains s b'.')) [ inl d ↦ rw d refl | inr d ↦ rw d refl ])
]

keyed-key_entry :
    (c_section key value : Bytes)
    → keyed c_section key value (split_at b'.' key) ≡ key_entry c_section key value
unfolding keyed
keyed-key_entry c_section key value =
    rw (split_at_dot key)
      (elim (Bool-cases (contains key b'.')) [ inl e ↦ rw e refl | inr e ↦ rw e refl ])

-- The entries of a file, section by section.
abbrev pub file_entries : Bytes → List Item → List Entry
file_entries c_section [] = []
file_entries c_section (sets s ∷ l) = key_entry c_section s.key s.value ∷ file_entries c_section l
file_entries c_section (heads indent name trail comment ∷ l) = file_entries name l
file_entries c_section (says pad comment ∷ l) = file_entries c_section l

comment-Lacks : (c : Option Bytes) → IsComment c → Lacks 10 (comment_text c)
comment-Lacks none h = tt
comment-Lacks (some t) h = (omega arith, h)

item-Lacks : (i : Item) → IsItem i → Lacks 10 (item_text i)
item-Lacks (sets s) (h, c) =
    All-append (λ x. x ≢ 10) (setting_text s) _ (setting-Lacks_newline s h)
      (comment-Lacks s.comment c)
item-Lacks (heads indent name trail comment) (hi, (hn, (ht, c))) =
    All-append (λ x. x ≢ 10) (heading_text indent name trail) _
      (All-append (λ x. x ≢ 10) indent _ (pad_newline indent hi)
        (
          (omega arith),
          All-append (λ x. x ≢ 10) name _
              (Lacks-of 10 (λ x. (x ≢ b']') × (x ≢ b'#') × (x ≢ 10)) name (λ x h. h.2) hn)
              ((omega arith), pad_newline trail ht),
        ))
      (comment-Lacks comment c)
item-Lacks (says pad comment) (hp, c) =
    All-append (λ x. x ≢ 10) pad _ (pad_newline pad hp) (comment-Lacks comment c)

heading-Lacks_hash :
    (indent name trail : Bytes)
    → IsPad indent
    → All (λ x. (x ≢ b']') × (x ≢ b'#') × (x ≢ 10)) name
    → IsPad trail
    → Lacks b'#' (heading_text indent name trail)
heading-Lacks_hash indent name trail hi hn ht =
    All-append (λ x. x ≢ b'#') indent _ (IsPad-Lacks b'#' indent refl hi)
      (
        (omega arith),
        All-append (λ x. x ≢ b'#') name _
            (Lacks-of b'#' (λ x. (x ≢ b']') × (x ≢ b'#') × (x ≢ 10)) name (λ x h. h.1) hn)
            ((omega arith), IsPad-Lacks b'#' trail refl ht),
      )

heading_stripped :
    (indent name trail : Bytes)
    → IsPad indent
    → IsPad trail
    → ini_strip_whitespace (heading_text indent name trail) ≡ b'[' ∷ (name ++ b']' ∷ [])
unfolding ini_strip_whitespace
heading_stripped indent name trail hi ht =
    let last : strip_end (b']' ∷ trail) ≡ b']' ∷ [] =
      (unfold strip_end in rw (strip_end-pad trail ht) refl) in
    let start : strip_start (b'[' ∷ (name ++ b']' ∷ trail)) ≡ b'[' ∷ (name ++ b']' ∷ trail) =
      (unfold strip_start in refl) in
    rw (strip_start-append indent (b'[' ∷ (name ++ b']' ∷ trail)) hi, start)
      (strip_end-append (b'[' ∷ name) (b']' ∷ trail) (ap is_empty last)
        ∙ ap (λ r. b'[' ∷ (name ++ r)) last)

parse_heading :
    (c_section indent name trail : Bytes) (comment : Option Bytes)
    → IsPad indent
    → All (λ x. (x ≢ b']') × (x ≢ b'#') × (x ≢ 10)) name
    → IsPad trail
    → parse_line c_section (heading_text indent name trail ++ comment_text comment) ≡ section name
unfolding parse_line stripped_line section_of
parse_heading c_section indent name trail comment hi hn ht =
    rw
      (
        cut_comment (heading_text indent name trail) comment
            (heading-Lacks_hash indent name trail hi hn ht),
        heading_stripped indent name trail hi ht,
        split_at-append b']' name []
            (Lacks-of b']' (λ x. (x ≢ b']') × (x ≢ b'#') × (x ≢ 10)) name (λ x h. h.0) hn),
      )
      refl

pad_stripped : (pad : Bytes) → IsPad pad → ini_strip_whitespace pad ≡ []
pad_stripped pad hp =
    ap ini_strip_whitespace (sym (append-nil pad))
    ∙ strip_padded pad [] [] hp (tt, unfold strip_end in refl) tt

parse_remark :
    (c_section pad : Bytes) (comment : Option Bytes)
    → IsPad pad
    → parse_line c_section (pad ++ comment_text comment) ≡ noise
unfolding parse_line stripped_line
parse_remark c_section pad comment hp =
    rw (cut_comment pad comment (IsPad-Lacks b'#' pad refl hp))
      (ap (stripped_line c_section) (pad_stripped pad hp))

read_step :
    (n : ℕ) (t r c_section : Bytes) (line : ℕ)
    → Lacks 10 t
    → read_from (suc n) (some (t ++ 10 ∷ r)) c_section line
      ≡ after_line
          (parse_line c_section t)
          c_section
          (some r)
          (line + 1)
          (λ name. read_from n (some r) name (line + 1))
unfolding read_from first_line
read_step n [] r c_section line h = rw (split_at-append 10 [] r tt) refl
read_step n (x ∷ t) r c_section line h = rw (split_at-append 10 (x ∷ t) r h) refl

items_le : (l : List Item) → length l ≤ length (file_text l)
items_le [] = omega arith
items_le (i ∷ l) = omega (arith, items_le l, length-append (item_text i) (10 ∷ file_text l))

-- All entries from here on, with rounds for the lines and for the entries that there can be.
read_items :
    (n m : ℕ) (l : List Item) (c_section : Bytes) (line : ℕ)
    → All IsItem l
    → length l < n
    → length l ≤ m
    → next_entries (read_from n (some (file_text l)) c_section line) (all_entries m)
      ≡ file_entries c_section l
unfolding next_entries after_line all_entries ini_read
read_items zero m l c_section line h small enough = absurd (omega arith)
read_items (suc n) m [] c_section line h small enough = unfold read_from in refl
read_items (suc n) zero (sets s ∷ l) c_section line h small enough = absurd (omega arith)
read_items (suc n) (suc m) (sets s ∷ l) c_section line ((is, hc), h) small enough =
    rw
      (
        read_step n (item_text (sets s)) (file_text l) c_section line
            (item-Lacks (sets s) (is, hc)),
        parse_setting c_section s is,
        keyed-key_entry c_section s.key s.value,
      )
      (ap (λ r. key_entry c_section s.key s.value ∷ r)
        (read_items (suc (length (file_text l))) m l c_section (line + 1) h
          (omega (arith, items_le l)) (omega arith)))
read_items (suc n) m (heads indent name trail comment ∷ l) c_section line ((hi, (hn, (ht, hc))), h)
      small enough =
    rw
      (
        read_step n (item_text (heads indent name trail comment)) (file_text l) c_section line
            (item-Lacks (heads indent name trail comment) (hi, (hn, (ht, hc)))),
        parse_heading c_section indent name trail comment hi hn ht,
      )
      (read_items n m l name (line + 1) h (omega arith) (omega arith))
read_items (suc n) m (says pad comment ∷ l) c_section line ((hp, hc), h) small enough =
    rw
      (
        read_step n (item_text (says pad comment)) (file_text l) c_section line
            (item-Lacks (says pad comment) (hp, hc)),
        parse_remark c_section pad comment hp,
      )
      (read_items n m l c_section (line + 1) h (omega arith) (omega arith))

pub all_entries-items :
    (l : List Item)
    → All IsItem l
    → all_entries
        (suc (length (file_text l)))
        (record { cur = some (file_text l); c_section = []; line = 0 })
      ≡ file_entries [] l
all_entries-items l h =
    unfold all_entries in
    unfold ini_read in
    read_items (suc (length (file_text l))) (length (file_text l)) l [] 0 h
      (omega (arith, items_le l)) (items_le l)

-- A file of at most 16384 bytes is read as what was written: settings, in the section of their key
-- or of the last heading, with any white space around key and value, any comments, and lines
-- without a setting. The reader is at the end
-- after no more calls than there are bytes, and one.
pub all_entries-file_text :
    (l : List Item)
    → All IsItem l
    → length (file_text l) ≤ 16384
    → (file : Ini) × (ini_open (file_text l) ≡ some file)
      × (all_entries (suc (length (file_text l))) file ≡ file_entries [] l)
unfolding ini_open
all_entries-file_text l h small =
    let fits : leb (length (file_text l)) 16384 ≡ true = (ground arith) in
    rw fits (_, refl, all_entries-items l h)
