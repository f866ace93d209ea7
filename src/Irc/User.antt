-- ===== src/Irc/User.antt =====
-- irc_user.c: the users that the client sees. An address is a number, and `store` says what is at it.
pub mod Index
pub mod Order
pub mod Users
pub mod Rename
pub mod Free
pub mod Quit
pub mod Calls
mod Examples
use bitl_steam.Common.{
  ℕ, zero, suc, ◌+◌, ◌≡◌, Bool, true, false, not, ◌&&◌, ◌||◌, Option, none, some, List, [], ◌∷◌,
  ◌++◌, Bytes, codes, map, ◌==◌, strcmp_eq, if◌then◌else◌, contains, drop,
}
use bitl_steam.Common.Outcome.{Outcome, done, fault, ◌>>=◌}
use bitl_steam.Glib.{HashTable}
use bitl_steam.Glib.Slist.{Slist}
use bitl_steam.Nick.{Sign, strcmp, nick_lc}
use bitl_steam.Irc.Channel.{
  ChannelUser, Channel, Event, Place, Done, cdu_silent, irc_channel_has_user, irc_channel_del_user,
}

-- `user`, `host` and `fullname` point to the nick until they are given texts of their own.
pub data Text : Type 0 where
  the_nick : Text
  own : Bytes → Text

-- What a user needs of its buddy: the connection's address, whether it is logging out, the
-- account's user name and the protocol's name.
pub record Buddy : Type 0 where
  pub ic : ℕ
  pub logging_out : Bool
  pub acc_user : Bytes
  pub prpl_name : Bytes

pub record IrcUser : Type 0 where
  pub nick : Bytes
  pub user : Text
  pub host : Text
  pub fullname : Text
  pub key : Bytes
  pub bu : Option Buddy

-- What is sent to the client, and to the master process.
pub data Sent : Type 0 where
  in_channel : Event → Sent
  new_nick quit : ℕ → Bytes → Sent
  to_master : Bytes → Sent

-- The part of `irc_t` that the users are kept in, with the settings "ops" and
-- "simulate_netsplit" and root's host. `last_ic` and `msg` are `irc_user_free`'s static variables.
pub record Irc (T : Type 0) : Type 0 where
  pub store : ℕ → Option IrcUser
  pub users : List ℕ
  pub nick_user_hash : T
  pub user : ℕ
  pub root : ℕ
  pub channels : List Channel
  pub ops : Bytes
  pub shutdown : Bool
  pub simulate_netsplit : Bool
  pub root_host : Bytes
  pub last_ic : Option ℕ
  pub msg : Bytes
  pub sent : List Sent

abbrev pub key_of : Option IrcUser → Bytes
key_of none = []
key_of (some iu) = iu.key

-- What is at an address after a write.
unfoldable pub write : (ℕ → Option IrcUser) → ℕ → Option IrcUser → (ℕ → Option IrcUser)
write store p iu q = if p == q then iu else store q

unfoldable pub user_cmp : (ℕ → Option IrcUser) → ℕ → ℕ → Sign
user_cmp store p q = strcmp (key_of (store p)) (key_of (store q))

-- A read through a pointer to nothing, or to a user that was freed, is undefined.
unfoldable pub deref : Option IrcUser → Outcome IrcUser
deref none = fault
deref (some iu) = done iu

-- `strchr(s, '@')`, and what is behind it.
unfoldable pub after_at : Bytes → Option Bytes
after_at [] = none
after_at (c ∷ s) = let rest = after_at s in if c == b'@' then some s else rest

-- A host without a dot is given one.
unfoldable pub host_prefix : Bytes → Bytes
host_prefix host = if contains host b'.' then [] else codes "bitlbee."

unfoldable pub split_msg : Bytes → Bytes → Option Bytes → Bytes
split_msg host name none = host_prefix host ++ host ++ 32 ∷ name ++ b'.' ∷ host
split_msg host name (some domain) = host_prefix host ++ host ++ 32 ∷ domain

unfoldable pub logout_msg : Bool → Bytes → Buddy → Bytes
unfolding split_msg
logout_msg simulate_netsplit host bu =
    if simulate_netsplit
    then split_msg host bu.prpl_name (after_at bu.acc_user)
    else codes "Account off-line"

abbrev pub is_ic : Option ℕ → ℕ → Bool
is_ic none ic = false
is_ic (some last) ic = last == ic

module _ {T : Type 0} (h : HashTable T ℕ) (gl : Slist ℕ) (gc : Slist ChannelUser) where
  unfoldable pub place : Irc T → Place
  place irc = record {
    user = irc.user;
    root = irc.root;
    key = λ p. key_of (irc.store p);
    ops = irc.ops;
    shutdown = irc.shutdown;
  }

  -- A user is entered in the hash table and in the sorted list.
  unfoldable pub insert : ℕ → IrcUser → Irc T → Irc T
  insert p iu irc =
      let store = write irc.store p (some iu) in
      record irc {
        store = store;
        nick_user_hash = h.replace irc.nick_user_hash iu.key p;
        users = gl.insert_sorted (user_cmp store) p irc.users;
      }

  unfoldable pub remove_user : ℕ → IrcUser → Irc T → Irc T
  remove_user p iu irc = record irc {
    users = gl.remove (λ q. q == p) irc.users;
    nick_user_hash = h.remove irc.nick_user_hash iu.key;
  }

  -- The result of `nick_lc` is not looked at: the key is what it leaves. `p` is what `g_new0` returns.
  unfoldable pub irc_user_new : ℕ → Bytes → Irc T → Outcome (Irc T)
  irc_user_new p nick irc = nick_lc nick >>= λ r. done (
      insert p
        (record {
          nick = nick;
          user = the_nick;
          host = the_nick;
          fullname = the_nick;
          key = r.1;
          bu = none;
        })
        irc)

  unfoldable pub irc_user_by_name : Irc T → Bytes → Outcome (Option ℕ)
  irc_user_by_name irc nick =
      nick_lc nick >>= λ r. done (if r.0 then h.lookup irc.nick_user_hash r.1 else none)

  -- A text that is the old nick's becomes a copy of the new one.
  unfoldable pub renamed_text : Bytes → Text → Text
  renamed_text new the_nick = own new
  renamed_text new (own s) = own s

  unfoldable pub renamed : Bytes → Bytes → IrcUser → IrcUser
  renamed new key iu = record iu {
    nick = new;
    key = key;
    user = renamed_text new iu.user;
    host = renamed_text new iu.host;
    fullname = renamed_text new iu.fullname;
  }

  -- The loop over the channels: one message, if the user is the client or is seen somewhere.
  unfoldable pub is_seen : ℕ → ℕ → List Channel → Bool
  is_seen p user [] = false
  is_seen p user (ic ∷ l) =
      p == user || (ic.joined && irc_channel_has_user ic p) || is_seen p user l

  unfoldable pub tell_nick : ℕ → Bytes → Irc T → Irc T
  tell_nick p new irc =
      if is_seen p irc.user irc.channels
      then record irc { sent = irc.sent ++ new_nick p new ∷ [] }
      else irc

  unfoldable pub tell_master : ℕ → Bytes → Irc T → Irc T
  tell_master p new irc =
      if p == irc.user
      then record irc { sent = irc.sent ++ to_master (codes "NICK :" ++ new ++ 13 ∷ 10 ∷ []) ∷ [] }
      else irc

  unfoldable pub set_nick_of : ℕ → IrcUser → Bytes → Bytes → Irc T → Irc T
  set_nick_of p iu new key irc =
      tell_master p new (insert p (renamed new key iu) (remove_user p iu (tell_nick p new irc)))

  -- Somebody else has the nick.
  unfoldable pub is_other : ℕ → Option ℕ → Bool
  is_other p none = false
  is_other p (some q) = not (q == p)

  unfoldable pub irc_user_set_nick : ℕ → Bytes → Irc T → Outcome (Bool × Irc T)
  irc_user_set_nick p new irc = deref (irc.store p) >>= λ iu. nick_lc new >>= λ r.
      irc_user_by_name irc new >>= λ found.
      done
        (if not r.0 || is_other p found then (false, irc) else (true, set_nick_of p iu new r.1 irc))

  -- `irc_user_quit`: silently out of all channels; whether the client saw the user in one.
  unfoldable pub quit_all : Place → ℕ → List Channel → List Channel × List Event × Bool
  quit_all at p [] = ([], [], false)
  quit_all at p (ic ∷ l) =
      let d = irc_channel_del_user gc at ic p cdu_silent [] in
      let rest = quit_all at p l in
      (d.ic ∷ rest.0, d.sent ++ rest.1, (irc_channel_has_user ic p && d.ic.joined) || rest.2)

  unfoldable pub irc_user_quit : ℕ → Bytes → Irc T → Irc T
  irc_user_quit p msg irc =
      let q = quit_all (place irc) p irc.channels in
      record irc {
        channels = q.0;
        sent = irc.sent ++ map in_channel q.1 ++ (if q.2 then quit p msg ∷ [] else []);
      }

  removed_msg : Irc T → Irc T
  removed_msg irc = record irc { msg = codes "Removed"; last_ic = none }

  -- The reason: all users of a connection that logs out get the first one's.
  unfoldable pub set_msg : Option Buddy → Irc T → Irc T
  unfolding removed_msg
  set_msg none irc = removed_msg irc
  set_msg (some bu) irc =
      if not bu.logging_out
      then removed_msg irc
      else if is_ic irc.last_ic bu.ic
      then irc
      else record irc {
        msg = logout_msg irc.simulate_netsplit irc.root_host bu;
        last_ic = some bu.ic;
      }

  unfoldable pub free_user : ℕ → IrcUser → Irc T → Irc T
  free_user p iu irc =
      let said = set_msg iu.bu irc in
      let left = remove_user p iu (irc_user_quit p said.msg said) in
      record left { store = write left.store p none }

  -- `p` is `none` for a null pointer.
  unfoldable pub irc_user_free : Option ℕ → Irc T → Outcome (Bool × Irc T)
  irc_user_free none irc = done (false, irc)
  irc_user_free (some p) irc = deref (irc.store p) >>= λ iu. done (true, free_user p iu irc)
