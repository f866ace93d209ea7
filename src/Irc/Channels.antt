-- ===== src/Irc/Channels.antt =====
-- irc_channel.c: the list of channels, and how one is found.
pub mod Find
pub mod Partial
mod Examples
use bitl_steam.Common.{
  is_some, ℕ, zero, suc, ◌+◌, Bool, true, false, not, ◌&&◌, ◌||◌, Option, none, some, List, [], ◌∷◌,
  ◌++◌, Bytes, get_elem?, ltb, ◌==◌, if◌then◌else◌,
}
use bitl_steam.Common.Outcome.{Outcome, done, fault, ◌>>=◌}
use bitl_steam.Stdio.{ℤ, pos, negsuc, scan_int}
use bitl_steam.Glib.Slist.{Slist}
use bitl_steam.Nick.{Sign, minus, equal, plus}
use bitl_steam.Irc.Name.{irc_channel_name_ok, irc_channel_name_cmp}
use bitl_steam.Irc.Channel.{ChannelUser, Channel, Event, Place, irc_channel_add_user}

abbrev pub is_equal : Sign → Bool
is_equal equal = true
is_equal minus = false
is_equal plus = false

unfoldable pub irc_channel_by_name : List Channel → Bytes → Option Channel
irc_channel_by_name [] name = none
irc_channel_by_name (ic ∷ l) name =
    if is_equal (irc_channel_name_cmp name ic.name) then some ic else irc_channel_by_name l name

-- `strstr(s, part) != NULL`
unfoldable pub starts_with : Bytes → Bytes → Bool
starts_with s [] = true
starts_with [] (x ∷ part) = false
starts_with (c ∷ s) (x ∷ part) = c == x && starts_with s part

unfoldable pub strstr : Bytes → Bytes → Bool
strstr [] part = starts_with [] part
strstr (c ∷ s) part = starts_with (c ∷ s) part || strstr s part

-- The loop over partial matches: `ret` is the one found so far, and a second one ends it.
unfoldable pub only_match : List Channel → Bytes → Option Channel → Option Channel
only_match [] id ret = ret
only_match (ic ∷ l) id ret =
    let first = only_match l id (some ic) in
    let next = only_match l id ret in
    if strstr ic.name id then (if is_some ret then none else first) else next

-- The channel of a number. A negative one is never counted down to zero.
unfoldable pub nth : List Channel → ℤ → Option Channel
nth l (pos n) = get_elem? l n
nth l (negsuc n) = none

unfoldable pub is_index : ℤ → Bool
is_index (pos n) = ltb n 1000
is_index (negsuc n) = true

-- An exact match goes before a partial one.
unfoldable pub exact_or : List Channel → Bytes → Option Channel → Option Channel
exact_or l id none = only_match l id none
exact_or l id (some ic) = some ic

unfoldable pub by_text : List Channel → Bytes → Option Channel
by_text l id = exact_or l id (irc_channel_by_name l id)

-- By a number below 1000 as an index, or else by a name. A number that no `int` can hold makes
-- `sscanf` undefined.
unfoldable pub get_scanned : List Channel → Bytes → Option (Outcome ℤ) → Outcome (Option Channel)
get_scanned l id none = done (by_text l id)
get_scanned l id (some m) = m >>= λ nr. done (if is_index nr then nth l nr else by_text l id)

unfoldable pub irc_channel_get : List Channel → Bytes → Outcome (Option Channel)
irc_channel_get l id = get_scanned l id (scan_int id)

-- A channel with root in it, at an address from `g_new0`, behind the others; or nothing, if the
-- name is not acceptable or taken.
unfoldable pub fresh_channel : Slist ChannelUser → Place → ℕ → Bytes → Channel
fresh_channel gl irc p name =
    let ic : Channel = record {
      self = p;
      name = name;
      joined = false;
      temp = false;
      topic = none;
      users = [];
    } in
    (irc_channel_add_user gl irc ic irc.root).ic

unfoldable pub irc_channel_new :
    Slist ChannelUser → Place → ℕ → List Channel → Bytes → Option (List Channel)
irc_channel_new gl irc p l name =
    if not (irc_channel_name_ok name) || is_some (irc_channel_by_name l name)
    then none
    else some (l ++ fresh_channel gl irc p name ∷ [])
