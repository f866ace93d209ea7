-- ===== src/Irc/Names.antt =====
-- irc_send.c: the names of a channel's users, in lines of a bounded length.
pub mod Fits
mod Examples
use Prim.Native.Nat.{bit_and}
use bitl_steam.Common.{
  ℕ, zero, suc, ◌+◌, ◌-◌, ◌≤◌, ◌≡◌, refl, ap, sym, ◌∙◌, Bool, true, false, Option, none, some, List,
  [], ◌∷◌, ◌++◌, append_assoc, append-nil, Bytes, codes, length, length-append, ltb, ◌==◌,
  if◌then◌else◌, All, arith, Bool-cases, inl, inr,
}
use bitl_steam.Common.Outcome.{Outcome, done, fault, ◌>>=◌}

-- A user of the channel: the flags and the nick.
pub record Named : Type 0 where
  pub flags : ℕ
  pub nick : Bytes

-- `sizeof( namelist )`
abbrev pub namelist_size : ℕ
namelist_size = 385

unfoldable pub prefix_of : ℕ → Bytes
prefix_of flags =
    if ltb 0 (bit_and flags 1)
    then codes "@"
    else if ltb 0 (bit_and flags 2)
    then codes "%"
    else if ltb 0 (bit_and flags 4)
    then codes "+"
    else []

-- What the calls of `strcat` add for a user.
abbrev pub name_text : Named → Bytes
name_text u = prefix_of u.flags ++ u.nick ++ codes " "

-- The calls of `strcat`: with the closing zero the text must fit in the array.
unfoldable pub append_name : Bytes → Named → Outcome Bytes
append_name namelist u =
    let text = namelist ++ name_text u in
    if ltb (length text) namelist_size then done text else fault

-- `if( *namelist ) irc_send_num( 353, ... )`
unfoldable pub last_line : Bytes → List Bytes
last_line [] = []
last_line (c ∷ namelist) = (c ∷ namelist) ∷ []

unfoldable pub is_full : Bytes → Named → Bool
is_full namelist u = ltb (namelist_size - 4) (length namelist + length u.nick)

-- The lines that are sent, with what is collected so far.
unfoldable pub names_from : List Named → Bytes → Outcome (List Bytes)
names_from [] namelist = done (last_line namelist)
names_from (u ∷ l) namelist =
    let same = append_name namelist u >>= names_from l in
    let next = append_name [] u >>= names_from l >>= λ lines. done (namelist ∷ lines) in
    if is_full namelist u then next else same

unfoldable pub irc_send_names : List Named → Outcome (List Bytes)
irc_send_names l = names_from l []
