-- ===== src/Nick.antt =====
-- nick.c: nicknames of buddies. The proofs are in the modules below.
pub mod Chars
pub mod Strip
pub mod Case
pub mod Compare
pub mod Dedupe
pub mod Store
pub mod Gen
pub mod Get
mod Examples
use bitl_steam.Common.{
  ℕ, zero, suc, ◌+◌, ◌%◌, Bool, true, false, not, ◌&&◌, ◌||◌, Option, none, some, List, [], ◌∷◌,
  ◌++◌, Bytes, codes, is_digit, tolower, contains, all, length, take, drop, set, replicate, get_or,
  ltb, leb, ◌==◌, if◌then◌else◌,
}
use bitl_steam.Common.Outcome.{Outcome, done, fault, ◌>>=◌}

abbrev pub max_nick_length : ℕ
max_nick_length = 24

-- The two maps of allowed characters, in the same order.
abbrev pub nick_lc_chars : Bytes
nick_lc_chars = codes "0123456789abcdefghijklmnopqrstuvwxyz{}^`-_|"

abbrev pub nick_uc_chars : Bytes
nick_uc_chars = codes "0123456789ABCDEFGHIJKLMNOPQRSTUVWXYZ[]~`-_\\"

-- `strchr(nick_lc_chars, c) || strchr(nick_uc_chars, c)`
unfoldable pub is_nick_char : ℕ → Bool
is_nick_char c = contains nick_lc_chars c || contains nick_uc_chars c

abbrev pub first_is_digit : Bytes → Bool
first_is_digit [] = false
first_is_digit (c ∷ s) = is_digit c

-- Store handles in lower case and strip spaces.
unfoldable pub clean_handle : Bytes → Bytes
clean_handle [] = []
clean_handle (c ∷ s) = let rest = clean_handle s in if c == 32 then rest else tolower c ∷ rest

-- The loop of `nick_strip`: the first allowed characters, as far as there is room.
pub kept : ℕ → Bytes → Bytes
kept room [] = []
kept zero (c ∷ s) = []
kept (suc room) (c ∷ s) =
    let taken = c ∷ kept room s in
    let skipped = kept (suc room) s in if is_nick_char c then taken else skipped

-- What the loop leaves in the buffer: the kept characters, and behind them the old text.
pub compacted : Bytes → Bytes
unfolding kept
compacted nick = let k = kept max_nick_length nick in k ++ drop (length k) nick

-- `g_snprintf(nick, MAX_NICK_LENGTH, "_%s", orig)`, if the buffer starts with a digit, and then
-- zeros from `j` on.
pub cut : ℕ → Bytes → Bytes
cut j buf = if first_is_digit buf then take (j + 1) (take 23 (b'_' ∷ buf)) else take j buf

unfoldable pub nick_strip : Bytes → Bytes
unfolding kept compacted cut
nick_strip nick = cut (length (kept max_nick_length nick)) (compacted nick)

unfoldable pub nick_ok : Bytes → Bool
nick_ok [] = false
nick_ok (c ∷ s) =
    if is_digit c || ltb max_nick_length (length (c ∷ s)) then false else all is_nick_char (c ∷ s)

-- `tab[uc[i]] = to[i]; tab[lc[i]] = to[i]` along the two maps.
fill_tab : Bytes → Bytes → Bytes → Bytes → Bytes
fill_tab (l ∷ lc) (u ∷ uc) (t ∷ to) tab = fill_tab lc uc to (set (set tab u t) l t)
fill_tab _ _ _ tab = tab

pub lc_tab : Bytes
unfolding fill_tab
lc_tab = fill_tab nick_lc_chars nick_uc_chars nick_lc_chars (replicate 128 0)

pub uc_tab : Bytes
unfolding fill_tab
uc_tab = fill_tab nick_lc_chars nick_uc_chars nick_uc_chars (replicate 128 0)

-- `tab[(int)c]` for a byte below 128.
unfoldable pub lower : ℕ → ℕ
unfolding lc_tab
lower c = get_or lc_tab c 0

unfoldable pub upper : ℕ → ℕ
unfolding uc_tab
upper c = get_or uc_tab c 0

-- The loop of `nick_lc` and `nick_uc`: the result, and the text as far as it was changed. A `char`
-- from 128 up is negative, and reads outside the table.
unfoldable pub convert : (ℕ → ℕ) → Bytes → Outcome (Bool × Bytes)
convert tab [] = done (true, [])
convert tab (c ∷ s) =
    let stop : Outcome (Bool × Bytes) = done (false, c ∷ s) in
    let next = convert tab s >>= λ r. done (r.0, tab c ∷ r.1) in
    if ltb c 128 then (if tab c == 0 then stop else next) else fault

unfoldable pub nick_lc : Bytes → Outcome (Bool × Bytes)
unfolding convert
nick_lc = convert lower

unfoldable pub nick_uc : Bytes → Outcome (Bool × Bytes)
unfolding convert
nick_uc = convert upper

-- The sign of what `strcmp` returns.
pub data Sign : Type 0 where
  minus equal plus : Sign

unfoldable pub strcmp : Bytes → Bytes → Sign
strcmp [] [] = equal
strcmp [] (y ∷ b) = minus
strcmp (x ∷ a) [] = plus
strcmp (x ∷ a) (y ∷ b) = if ltb x y then minus else if ltb y x then plus else strcmp a b

compare_lowered : Bool × Bytes → Bool × Bytes → Sign
compare_lowered (true, aa) (true, bb) = strcmp aa bb
compare_lowered _ _ = minus

-- Both texts are cut to 1023 characters. The second is lowered only if the first could be.
unfoldable pub nick_cmp : Bytes → Bytes → Outcome Sign
unfolding compare_lowered
nick_cmp a b = nick_lc (take 1023 a) >>= λ aa.
    if aa.0 then (nick_lc (take 1023 b) >>= λ bb. done (compare_lowered aa bb)) else done minus

unfoldable pub nick_dup : Bytes → Bytes
nick_dup nick = take max_nick_length nick

-- One round of `nick_dedupe`: an underscore behind, or the first character counted up. A `char` that
-- is counted up to zero ends the string in front of all others.
unfoldable pub tweak : Bytes → Bytes
tweak [] = b'_' ∷ []
tweak (c ∷ s) =
    if ltb (length (c ∷ s)) 23
    then (c ∷ s) ++ b'_' ∷ []
    else if (c + 1) % 256 == 0
    then []
    else (c + 1) % 256 ∷ s

-- The test of the loop. `taken` says that another buddy's user has the nick.
unfoldable pub is_free : (Bytes → Bool) → Bytes → Bool
is_free taken nick = nick_ok nick && not (taken nick)

-- `nick_dedupe` with the rounds that `inf_protection` allows, and the nick that is made up in the
-- end. The flag says that the warning was given.
unfoldable pub dedupe : ℕ → (Bytes → Bool) → Bytes → Bytes → Bytes × Bool
unfolding is_free
dedupe zero taken made_up nick = if is_free taken nick then (nick, false) else (made_up, true)
dedupe (suc n) taken made_up nick =
    let rest = dedupe n taken made_up (tweak nick) in
    if is_free taken nick then (nick, false) else rest

abbrev pub inf_protection : ℕ
inf_protection = 256
