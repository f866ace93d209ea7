-- ===== src/Ini.antt =====
-- lib/ini.c: a reader of configuration files. A file is the text in front of its first zero.
pub mod Lines
pub mod Setting
pub mod RoundTrip
mod Examples
use bitl_steam.Common.{
  ℕ, zero, suc, ◌+◌, ◌≤◌, Bool, true, false, not, ◌&&◌, ◌||◌, Option, none, some, List, [], ◌∷◌,
  ◌++◌, Bytes, is_space, length, leb, ◌==◌, if◌then◌else◌,
}
use bitl_steam.Common.Split.{split_at}

-- `if( ( s = strchr( cur, c ) ) != NULL ) *s = 0`
unfoldable pub cut_of : Bytes → Option (Bytes × Bytes) → Bytes
cut_of s none = s
cut_of s (some r) = r.0

unfoldable pub cut_at : ℕ → Bytes → Bytes
cut_at c s = cut_of s (split_at c s)

unfoldable pub strip_start : Bytes → Bytes
strip_start [] = []
strip_start (c ∷ s) = let rest = strip_start s in if is_space c then rest else c ∷ s

abbrev pub is_empty : Bytes → Bool
is_empty [] = true
is_empty (c ∷ s) = false

unfoldable pub strip_end : Bytes → Bytes
strip_end [] = []
strip_end (c ∷ s) = let rest = strip_end s in if is_empty rest && is_space c then [] else c ∷ rest

unfoldable pub ini_strip_whitespace : Bytes → Bytes
ini_strip_whitespace s = strip_end (strip_start s)

pub record Entry : Type 0 where
  pub section : Bytes
  pub key : Bytes
  pub value : Bytes

-- The reader: what it has still to read, none behind the last line; the section; and the lines so far.
pub record Ini : Type 0 where
  pub cur : Option Bytes
  pub c_section : Bytes
  pub line : ℕ

-- `ini_open` reads files of at most 16384 bytes.
unfoldable pub ini_open : Bytes → Option Ini
ini_open text =
    if leb (length text) 16384
    then some (record { cur = some text; c_section = []; line = 0 })
    else none

-- The section of a key with a dot in it is in front of the first one.
unfoldable pub keyed : Bytes → Bytes → Bytes → Option (Bytes × Bytes) → Entry
keyed c_section key value none = record { section = c_section; key = key; value = value }
keyed c_section key value (some r) = record { section = r.0; key = r.1; value = value }

-- What a stripped line is: a new section, a setting, or nothing.
pub data Line : Type 0 where
  section : Bytes → Line
  entry : Entry → Line
  noise : Line

unfoldable pub setting : Bytes → Option (Bytes × Bytes) → Line
setting c_section none = noise
setting c_section (some r) =
    let key = ini_strip_whitespace r.0 in
    entry (keyed c_section key (ini_strip_whitespace r.1) (split_at b'.' key))

unfoldable pub section_of : Option (Bytes × Bytes) → Line
section_of none = noise
section_of (some r) = section r.0

unfoldable pub stripped_line : Bytes → Bytes → Line
stripped_line c_section [] = noise
stripped_line c_section (c ∷ s) =
    if c == b'[' then section_of (split_at b']' s) else setting c_section (split_at b'=' (c ∷ s))

unfoldable pub parse_line : Bytes → Bytes → Line
parse_line c_section s = stripped_line c_section (ini_strip_whitespace (cut_at b'#' s))

-- The line in front, and what is behind it.
unfoldable pub first_line : Bytes → Option (Bytes × Bytes) → Bytes × Option Bytes
first_line text none = (text, none)
first_line text (some r) = (r.0, some r.1)

-- What follows from a line: an entry is returned, and everything else goes on with the next line.
unfoldable pub after_line :
    Line → Bytes → Option Bytes → ℕ → (Bytes → Option Entry × Ini) → Option Entry × Ini
after_line (entry e) c_section next line more =
    (some e, record { cur = next; c_section = c_section; line = line })
after_line (section name) c_section next line more = more name
after_line noise c_section next line more = more c_section

-- The loop of `ini_read`, with a round for each line. A line takes a byte at least.
unfoldable pub read_from : ℕ → Option Bytes → Bytes → ℕ → Option Entry × Ini
read_from zero cur c_section line = (none, record { cur = cur; c_section = c_section; line = line })
read_from (suc n) none c_section line =
    (none, record { cur = none; c_section = c_section; line = line })
read_from (suc n) (some []) c_section line =
    (none, record { cur = some []; c_section = c_section; line = line })
read_from (suc n) (some (c ∷ s)) c_section line =
    let l = first_line (c ∷ s) (split_at 10 (c ∷ s)) in
    after_line (parse_line c_section l.0) c_section l.1 (line + 1)
      (λ name. read_from n l.1 name (line + 1))

abbrev pub size : Option Bytes → ℕ
size none = 0
size (some s) = length s

unfoldable pub ini_read : Ini → Option Entry × Ini
ini_read file = read_from (suc (size file.cur)) file.cur file.c_section file.line

-- `while( ini_read( ini ) )`, as conf_load calls it, with a round for each byte.
unfoldable pub next_entries : Option Entry × Ini → (Ini → List Entry) → List Entry
next_entries (none, file) more = []
next_entries (some e, file) more = e ∷ more file

unfoldable pub all_entries : ℕ → Ini → List Entry
all_entries zero file = []
all_entries (suc n) file = next_entries (ini_read file) (all_entries n)
