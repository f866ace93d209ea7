-- ===== src/Irc/Name.antt =====
-- irc_channel.c: the names of channels.
pub mod Laws
mod Examples
use bitl_steam.Common.{
  ℕ, zero, suc, ◌+◌, Bool, true, false, not, ◌&&◌, ◌||◌, Option, none, some, List, [], ◌∷◌, ◌++◌,
  Bytes, codes, contains, ltb, leb, ◌==◌, is_upper, if◌then◌else◌, all,
}
use bitl_steam.Nick.{Sign, minus, equal, plus}

abbrev pub ctypes : Bytes
ctypes = codes "&#"

-- `name[i] > ' ' && name[i] != ','`
abbrev pub is_name_char : ℕ → Bool
is_name_char c = ltb 32 c && not (c == b',')

unfoldable pub irc_channel_name_ok : Bytes → Bool
irc_channel_name_ok [] = false
irc_channel_name_ok (c ∷ name) = contains ctypes c && all is_name_char name

-- The same test of a `char`, which is signed: a byte from 128 up is below the space.
abbrev pub is_kept : ℕ → Bool
is_kept c = ltb 32 c && ltb c 128 && not (c == b',')

unfoldable pub irc_channel_name_strip : Bytes → Bytes
irc_channel_name_strip [] = []
irc_channel_name_strip (c ∷ name) =
    let rest = irc_channel_name_strip name in if is_kept c then c ∷ rest else rest

-- The table after the first call.
unfoldable pub case_map : ℕ → ℕ
case_map c =
    if is_upper c
    then c + 32
    else if c == b'['
    then b'{'
    else if c == b']'
    then b'}'
    else if c == b'~'
    then b'`'
    else if c == b'\\'
    then b'|'
    else if is_name_char c
    then c
    else 0

-- The sign of a difference.
unfoldable pub difference : ℕ → ℕ → Sign
difference a b = if ltb a b then minus else if ltb b a then plus else equal

-- The loop, and the comparison at the place where it stops. The closing zero maps to zero.
unfoldable pub compare_names : Bytes → Bytes → Sign
unfolding difference
compare_names [] [] = equal
compare_names [] (y ∷ b) = difference 0 (case_map y)
compare_names (x ∷ a) [] = difference (case_map x) 0
compare_names (x ∷ a) (y ∷ b) =
    let rest = compare_names a b in
    if case_map x == 0 || case_map y == 0
    then difference (case_map x) (case_map y)
    else if case_map x == case_map y
    then rest
    else difference (case_map x) (case_map y)

unfoldable pub irc_channel_name_cmp : Bytes → Bytes → Sign
unfolding compare_names
irc_channel_name_cmp a b =
    if not (irc_channel_name_ok a) || not (irc_channel_name_ok b) then minus else compare_names a b
