-- ===== src/Irc/Channel.antt =====
-- irc_channel.c: who is in a channel, and what the client is told of it.
pub mod Members
pub mod View
pub mod Calls
mod Examples
use bitl_steam.Common.{
  ℕ, zero, suc, ◌+◌, ◌≡◌, Bool, true, false, not, ◌&&◌, ◌||◌, Option, none, some, List, [], ◌∷◌,
  ◌++◌, Bytes, codes, ◌==◌, strcmp_eq, if◌then◌else◌,
}
use bitl_steam.Glib.Slist.{Slist}
use bitl_steam.Glib.Members.{mem}
use bitl_steam.Nick.{Sign, strcmp}

-- `irc_channel_user_t`: the user's address, and the flags.
pub record ChannelUser : Type 0 where
  pub iu : ℕ
  pub flags : ℕ

-- `irc_channel_t`: its own address, the flags `IRC_CHANNEL_JOINED` and `IRC_CHANNEL_TEMP`, the
-- topic, and who is in it.
pub record Channel : Type 0 where
  pub self : ℕ
  pub name : Bytes
  pub joined : Bool
  pub temp : Bool
  pub topic : Option Bytes
  pub users : List ChannelUser

-- What is sent to the client about a channel, and the timer that frees it.
pub data Event : Type 0 where
  join : ℕ → ℕ → Event
  names : ℕ → List ChannelUser → Event
  part kick : ℕ → ℕ → Bytes → Event
  mode : ℕ → ℕ → ℕ → ℕ → Event
  channel_mode : ℕ → Event
  topic_line : ℕ → Bytes → Event
  free_soon : ℕ → Event

-- The part of `irc_t` that channels read: the client's own user and root, the users' keys, the
-- setting "ops", and the flag `USTATUS_SHUTDOWN`.
pub record Place : Type 0 where
  pub user : ℕ
  pub root : ℕ
  pub key : ℕ → Bytes
  pub ops : Bytes
  pub shutdown : Bool

pub data Del : Type 0 where
  cdu_silent cdu_part cdu_kick : Del

abbrev pub op_flag : ℕ
op_flag = 1

-- The flags of the user's entry, if there is one.
unfoldable pub find_user : List ChannelUser → ℕ → Option ℕ
find_user [] iu = none
find_user (icu ∷ l) iu = if icu.iu == iu then some icu.flags else find_user l iu

unfoldable pub has_user : List ChannelUser → ℕ → Bool
unfolding mem
has_user = mem (λ icu. icu.iu)

unfoldable pub irc_channel_has_user : Channel → ℕ → Bool
irc_channel_has_user ic = has_user ic.users

-- `icu->flags = flags` in the first entry of the user.
unfoldable pub set_flags : List ChannelUser → ℕ → ℕ → List ChannelUser
set_flags [] iu flags = []
set_flags (icu ∷ l) iu flags =
    let rest = set_flags l iu flags in
    if icu.iu == iu then record icu { flags = flags } ∷ l else icu ∷ rest

-- The channel afterwards, and what was sent.
pub record Done : Type 0 where
  pub ic : Channel
  pub sent : List Event

unfoldable pub mode_set : Channel → ℕ → ℕ → Option ℕ → Done
mode_set ic iu flags none = record { ic = ic; sent = [] }
mode_set ic iu flags (some old) = if old == flags then record { ic = ic; sent = [] } else record {
  ic = record ic { users = set_flags ic.users iu flags };
  sent = if ic.joined then mode ic.self iu old flags ∷ [] else [];
}

unfoldable pub irc_channel_user_set_mode : Channel → ℕ → ℕ → Done
unfolding mode_set
irc_channel_user_set_mode ic iu flags = mode_set ic iu flags (find_user ic.users iu)

-- One call after another.
infixl 4 ◌then◌
unfoldable pub ◌then◌ : Done → (Channel → Done) → Done
d then f = record { ic = (f d.ic).ic; sent = d.sent ++ (f d.ic).sent }

unfoldable pub says : Bytes → Bytes → Bytes → ℕ
says value one two = if strcmp_eq value one || strcmp_eq value two then op_flag else 0

unfoldable pub irc_channel_update_ops : Place → Channel → Bytes → Done
unfolding says ◌then◌
irc_channel_update_ops irc ic value =
    irc_channel_user_set_mode ic irc.root (says value (codes "both") (codes "root")) then λ ic.
    irc_channel_user_set_mode ic irc.user (says value (codes "both") (codes "user"))

unfoldable pub topic_of : ℕ → Option Bytes → List Event
topic_of c none = []
topic_of c (some []) = []
topic_of c (some (x ∷ s)) = topic_line c (x ∷ s) ∷ []

-- `irc_send_join`: the client's own join is answered with the channel's modes, the names and the
-- topic.
unfoldable pub irc_send_join : Place → Channel → ℕ → List Event
irc_send_join irc ic iu =
    join ic.self iu
    ∷ (if iu == irc.user
        then channel_mode ic.self ∷ names ic.self ic.users ∷ topic_of ic.self ic.topic
        else [])

unfoldable pub announce : Place → ℕ → Channel → Done
announce irc iu ic =
    if iu == irc.user || ic.joined
    then (let now : Channel = record ic { joined = true } in
        record { ic = now; sent = irc_send_join irc now iu })
    else record { ic = ic; sent = [] }

module _ (gl : Slist ChannelUser) where
  unfoldable pub channel_user_cmp : Place → ChannelUser → ChannelUser → Sign
  channel_user_cmp irc a b = strcmp (irc.key a.iu) (irc.key b.iu)

  unfoldable pub enter : Place → Channel → ℕ → Channel
  enter irc ic iu = record ic {
    users = gl.insert_sorted (channel_user_cmp irc) (record { iu = iu; flags = 0 }) ic.users;
  }

  unfoldable pub irc_channel_add_user : Place → Channel → ℕ → Done
  irc_channel_add_user irc ic iu =
      if irc_channel_has_user ic iu
      then record { ic = ic; sent = [] }
      else (irc_channel_update_ops irc (enter irc ic iu) irc.ops then announce irc iu)

  unfoldable pub leave : Channel → ℕ → Channel
  leave ic iu = record ic { users = gl.remove (λ icu. icu.iu == iu) ic.users }

  unfoldable pub farewell : Channel → ℕ → Del → Bytes → List Event
  farewell ic iu cdu_silent msg = []
  farewell ic iu cdu_part msg = if ic.joined then part ic.self iu msg ∷ [] else []
  farewell ic iu cdu_kick msg = if ic.joined then kick ic.self iu msg ∷ [] else []

  -- What happens to a channel that the client itself leaves.
  unfoldable pub left : Place → Channel → Done
  left irc ic =
      if irc.shutdown
      then record { ic = ic; sent = [] }
      else if ic.temp
      then record { ic = ic; sent = free_soon ic.self ∷ [] }
      else irc_channel_add_user irc (record ic { users = [] }) irc.root

  unfoldable pub irc_channel_del_user : Place → Channel → ℕ → Del → Bytes → Done
  irc_channel_del_user irc ic iu type msg =
      if irc_channel_has_user ic iu
      then (record { ic = leave ic iu; sent = farewell ic iu type msg } then λ ic.
          if iu == irc.user
          then left irc (record ic { joined = false })
          else record { ic = ic; sent = [] })
      else record { ic = ic; sent = [] }
