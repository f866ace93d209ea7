-- ===== src/Irc/Login.antt =====
-- irc.c, irc_commands.c: how a client logs in.
pub mod Join
pub mod Enter
use bitl_steam.Common.{
  ℕ, zero, suc, Bool, true, false, not, ◌&&◌, ◌||◌, Option, none, some, List, [], ◌∷◌, ◌++◌, map,
  Bytes, codes, get_elem?, contains, take, drop, ◌==◌, strcmp_eq, if◌then◌else◌,
}
use bitl_steam.Common.Outcome.{Outcome, done, fault, ◌>>=◌}
use bitl_steam.Stdio.{ℤ, pos, negsuc}
use bitl_steam.Glib.{Glib, HashTable}
use bitl_steam.Glib.Slist.{Slist}
use bitl_steam.Misc.Md5.{md5_verify_password}
use bitl_steam.Root
use bitl_steam.Nick.{nick_ok}
use bitl_steam.Irc.Umode.{Answer, irc_umode_set}
use bitl_steam.Irc.Channel.{ChannelUser, Channel, Event, Done, irc_channel_add_user}
use bitl_steam.Irc.Channels.{irc_channel_new}
use bitl_steam.Irc.User.{
  IrcUser, Irc, Text, own, in_channel, write, deref, place, irc_user_new, irc_user_by_name,
  is_other, irc_user_set_nick,
}

-- What a command answers, besides what is sent about users and channels: a numeric, the texts of
-- a login, a change of modes, a message of root, the answer to PING, the reason of a closed link,
-- and what goes to the master process.
pub data Reply : Type 0 where
  num : ℕ → Reply
  login_texts root_msg client_to_master : Reply
  umode_change : Bytes → Reply
  pong closing_link : Bytes → Reply
  cmd_to_master : List Bytes → Reply

-- `irc_t`, with the flags of its status. Before the login `irc->user` is a user that is in no
-- list: its nick, its name with the full name, and its host are kept here.
pub record Session (T : Type 0) : Type 0 where
  pub irc : Irc T
  pub nick : Option Bytes
  pub user : Option (Bytes × Bytes)
  pub host : Bytes
  pub authorized : Bool
  pub logged_in : Bool
  pub identified : Bool
  pub password : Option Bytes
  pub umode : Bytes
  pub replies : List Reply

-- What the login takes from the configuration and from outside: `md5` is the hash function,
-- `auto_join` tells which channels are set to be joined, `root_function` is what
-- the commands of the control channel do.
pub record Server (T : Type 0) : Type 0 where
  pub auth_pass : Option Bytes
  pub is_closed : Bool
  pub is_daemon : Bool
  pub md5 : Bytes → Bytes
  pub auto_join : ℕ → Bool
  pub glib : Glib
  pub root_function : Root.Handler → List Bytes → Session T → Outcome (Session T)

abbrev pub root_chan : Bytes
root_chan = codes "&bitlbee"

abbrev pub control_topic : Bytes
control_topic = codes "Welcome to the control channel. Type \u{2}help\u{2} for help information."

-- `cmd[i]`: a read behind the null pointer at the end is undefined.
unfoldable pub arg : List Bytes → ℕ → Outcome Bytes
arg cmd i = elim (get_elem? cmd i) [ none ↦ fault | some a ↦ done a ]

abbrev pub is_zero : ℤ → Bool
is_zero (pos n) = n == 0
is_zero (negsuc n) = false

-- The server's password is a text, or a hash of it.
unfoldable pub is_password : (Bytes → Bytes) → Bytes → Bytes → Bool
is_password md5 auth_pass given =
    if strcmp_eq (take 4 auth_pass) (codes "md5:")
    then is_zero (md5_verify_password md5 given (drop 4 auth_pass))
    else strcmp_eq given auth_pass

-- The lines that `irc_umode_set` sends.
unfoldable pub umode_replies : Answer → List Reply
umode_replies a =
    (if a.badflag then num 501 ∷ [] else [])
    ++ elim a.changes [ [] ↦ [] | c ∷ s ↦ umode_change (c ∷ s) ∷ [] ]

-- `irc_channel_set_topic` of the channel at an address that was not joined yet.
unfoldable pub with_topic : ℕ → List Channel → List Channel
with_topic p [] = []
with_topic p (ic ∷ l) =
    let rest = with_topic p l in
    if ic.self == p then record ic { topic = some control_topic } ∷ l else ic ∷ rest

-- The user who replaces the one that was in no list.
unfoldable pub as_client : Bytes × Bytes → Bytes → Option IrcUser → Option IrcUser
as_client user host none = none
as_client user host (some iu) =
    some (record iu { user = own user.0; host = own host; fullname = own user.1 })

unfoldable pub quit_reason : Option Bytes → Bytes
quit_reason none = codes "Leaving..."
quit_reason (some []) = codes "Leaving..."
quit_reason (some (c ∷ s)) = codes "Quit: " ++ c ∷ s

-- `cmd[1] ? cmd[1] : irc->root->host`
unfoldable pub text_or : Bytes → Option Bytes → Bytes
text_or host none = host
text_or host (some text) = text

module _ {T : Type 0} (h : HashTable T ℕ) (gl : Slist ℕ) (gc : Slist ChannelUser)
    (server : Server T) where
  abbrev pub reply : Session T → List Reply → Session T
  reply s l = record s { replies = s.replies ++ l }

  -- `irc_channel_auto_joins( irc, NULL )`: the client enters the channels that are set so, and in
  -- any case the one at `q`.
  unfoldable pub auto_joins : Irc T → ℕ → List Channel → List Channel × List Event
  auto_joins irc q [] = ([], [])
  auto_joins irc q (ic ∷ l) =
      let rest = auto_joins irc q l in
      let d = irc_channel_add_user gc (place h gl gc irc) ic irc.user in
      if ic.self == q || server.auto_join ic.self
      then (d.ic ∷ rest.0, d.sent ++ rest.1)
      else (ic ∷ rest.0, rest.1)

  -- `irc->user` becomes a user in the list, at `p`.
  unfoldable pub enter_user : ℕ → Bytes × Bytes → Bytes → Bytes → Irc T → Outcome (Irc T)
  enter_user p user host nick irc = irc_user_new h gl gc p nick irc >>= λ irc.
      done (record irc { user = p; store = write irc.store p (as_client user host (irc.store p)) })

  -- The control channel, at `q`, gets its topic and the client.
  unfoldable pub in_channels : ℕ → Irc T → Option (List Channel) → Outcome (Irc T)
  in_channels q irc none = fault
  in_channels q irc (some l) =
      let joined = auto_joins irc q (with_topic q l) in
      done (record irc { channels = joined.0; sent = irc.sent ++ map in_channel joined.1 })

  unfoldable pub enter_channel : ℕ → Irc T → Outcome (Irc T)
  enter_channel q irc =
      in_channels q irc (irc_channel_new gc (place h gl gc irc) q irc.channels root_chan)

  -- `root_command`, with the functions of its table.
  unfoldable pub answer_root : Root.Answer → Session T → Outcome (Session T)
  answer_root Root.nothing s = done s
  answer_root Root.unknown s = done (reply s (root_msg ∷ []))
  answer_root (Root.not_enough n) s = done (reply s (root_msg ∷ []))
  answer_root (Root.execute f cmd) s = server.root_function f cmd s

  unfoldable pub identify : Bytes → Session T → Outcome (Session T)
  identify password s =
      answer_root (Root.root_command server.glib (codes "identify" ∷ password ∷ [])) s

  -- A password that was sent before the login is tried now, and forgotten.
  unfoldable pub try_password : Option Bytes → Session T → Outcome (Session T)
  try_password none s = done s
  try_password (some password) s = identify password (record s { password = none })

  unfoldable pub welcomed : Session T → Irc T → Answer → Session T
  welcomed s irc a = record s {
    irc = irc;
    logged_in = true;
    umode = a.umode;
    replies =
        s.replies
        ++ (if server.is_daemon then client_to_master ∷ [] else [])
        ++ login_texts ∷ umode_replies a
        ++ root_msg ∷ [];
  }

  unfoldable pub log_in : ℕ → ℕ → Bytes × Bytes → Bytes → Session T → Outcome (Session T)
  log_in p q user nick s = enter_user p user s.host nick s.irc >>= λ irc.
      irc_umode_set true [] (codes "+s") >>= λ a.
      enter_channel q irc >>= λ irc. try_password s.password (welcomed s irc a)

  unfoldable pub complete :
      ℕ → ℕ → Option (Bytes × Bytes) → Option Bytes → Session T → Outcome (Session T)
  complete p q none nick s = done s
  complete p q (some user) none s = done s
  complete p q (some user) (some nick) s =
      let entered = log_in p q user nick s in
      if server.is_closed && not s.authorized then done (reply s (num 464 ∷ [])) else entered

  unfoldable pub irc_check_login : ℕ → ℕ → Session T → Outcome (Session T)
  irc_check_login p q s = complete p q s.user s.nick s

  unfoldable pub pass_before : ℕ → ℕ → Option Bytes → Bytes → Session T → Outcome (Session T)
  pass_before p q none given s = irc_check_login p q (record s { password = some given })
  pass_before p q (some auth_pass) given s =
      if is_password server.md5 auth_pass given
      then irc_check_login p q (record s { authorized = true })
      else done (reply s (num 464 ∷ []))

  unfoldable pub irc_cmd_pass : ℕ → ℕ → List Bytes → Session T → Outcome (Session T)
  irc_cmd_pass p q cmd s = arg cmd 1 >>= λ given.
      if s.logged_in then identify given s else pass_before p q server.auth_pass given s

  unfoldable pub irc_cmd_user : ℕ → ℕ → List Bytes → Session T → Outcome (Session T)
  irc_cmd_user p q cmd s = arg cmd 1 >>= λ user.
      arg cmd 4 >>= λ fullname. irc_check_login p q (record s { user = some (user, fullname) })

  -- Another nick ends the identification, unless only its case changes.
  unfoldable pub unidentified : Option ℕ → Session T → Outcome (Session T)
  unidentified iu s =
      if s.identified && not (elim iu [ none ↦ false | some found ↦ found == s.irc.user ])
      then (irc_umode_set true s.umode (codes "-R") >>= λ a. done (record s {
        password = none;
        identified = false;
        umode = a.umode;
        replies = s.replies ++ umode_replies a ++ root_msg ∷ [];
      }))
      else done s

  unfoldable pub nick_changed : Bytes → Session T → Outcome (Session T)
  nick_changed nick s = deref (s.irc.store s.irc.user) >>= λ iu.
      if strcmp_eq nick iu.nick
      then done s
      else (irc_user_set_nick h gl gc s.irc.user nick s.irc >>= λ r. done (record s { irc = r.1 }))

  unfoldable pub irc_cmd_nick : ℕ → ℕ → List Bytes → Session T → Outcome (Session T)
  irc_cmd_nick p q cmd s = arg cmd 1 >>= λ nick. irc_user_by_name h gl gc s.irc nick >>= λ iu.
      if is_other h gl gc s.irc.user iu
      then done (reply s (num 433 ∷ []))
      else if not (nick_ok nick)
      then done (reply s (num 432 ∷ []))
      else if s.logged_in
      then (unidentified iu s >>= nick_changed nick)
      else irc_check_login p q (record s { nick = some nick })

  -- The connection is closed later.
  unfoldable pub irc_cmd_quit : List Bytes → Session T → Session T
  irc_cmd_quit cmd s = reply s (closing_link (quit_reason (get_elem? cmd 1)) ∷ [])

  unfoldable pub irc_cmd_ping : List Bytes → Session T → Session T
  irc_cmd_ping cmd s = reply s (pong (text_or s.irc.root_host (get_elem? cmd 1)) ∷ [])
