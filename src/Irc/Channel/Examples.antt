-- ===== src/Irc/Channel/Examples.antt =====
-- irc_channel.c: a client joins a channel, somebody follows, root is removed, and the client leaves.
use bitl_steam.Common.{none, ◌≡◌, refl, false, List, [], ◌∷◌, codes, arith, if◌then◌else◌, ◌==◌}
use bitl_steam.Glib.Sorted.{slist}
use bitl_steam.Irc.Channel.{
  Channel, Place, ◌then◌, irc_channel_del_user, irc_channel_has_user, has_user,
  irc_channel_update_ops, irc_channel_user_set_mode, find_user, irc_channel_add_user, announce,
  enter, channel_user_cmp, set_flags, leave, left, farewell, irc_send_join, mode_set, says,
}
use bitl_steam.Nick.{strcmp}
use bitl_steam.Irc.Channel.View.{View, IsChannel, Knows}
use bitl_steam.Irc.Channel.Calls.{
  Right, Call, perform, add, parts, kicks, ops, perform_all, perform_all-Right,
}

-- The client is user 1, root is 2.
abbrev place : Place
place = record {
  user = 1;
  root = 2;
  key = λ p. if p == 1 then codes "me" else if p == 2 then codes "root" else codes "a";
  ops = codes "both";
  shutdown = false;
}

abbrev nothing : View
nothing c u = false

abbrev fresh : Channel
fresh = record {
  self = 7;
  name = codes "&bitlbee";
  joined = false;
  temp = false;
  topic = none;
  users = record { iu = 2; flags = 0 } ∷ [];
}

fresh-IsChannel : IsChannel place fresh
unfolding has_user
fresh-IsChannel = record { distinct = (refl, tt); joined_iff = refl }

fresh-Knows : Knows nothing fresh
fresh-Knows = record { members = λ e u. cc }

abbrev calls : List Call
calls = add 1 ∷ add 3 ∷ kicks 2 (codes "bye") ∷ ops (codes "user") ∷ parts 1 [] ∷ []

run : (perform_all slist place fresh calls).ic.users ≡ record { iu = 2; flags = 1 } ∷ []
unfolding perform_all perform slist strcmp ◌then◌ irc_channel_del_user irc_channel_has_user has_user
    irc_channel_update_ops irc_channel_user_set_mode find_user irc_channel_add_user announce enter
    channel_user_cmp set_flags leave left farewell irc_send_join mode_set says
run = refl

perform_all-Right_example : Right place nothing (perform_all slist place fresh calls)
perform_all-Right_example =
    perform_all-Right slist place nothing fresh calls (omega arith) fresh-IsChannel fresh-Knows
