-- ===== src/Irc/Exec.antt =====
-- irc_commands.c: the table of commands, and who may use which.
pub mod Outside
pub mod Early
pub mod Guard
mod Examples
use Prim.Native.Nat.{bit_and}
use Prim.Native.String.{String}
use bitl_steam.Common.{
  ℕ, zero, suc, ◌-◌, Bool, true, false, not, ◌&&◌, Option, none, some, List, [], ◌∷◌, ◌++◌, Bytes,
  codes, contains, length, ltb, if◌then◌else◌,
}
use bitl_steam.Common.Outcome.{Outcome, done, fault, ◌>>=◌}
use bitl_steam.Glib.{Glib, HashTable}
use bitl_steam.Glib.Slist.{Slist}
use bitl_steam.Irc.Channel.{ChannelUser}
use bitl_steam.Irc.Login.{
  Session, Server, Reply, num, cmd_to_master, reply, irc_cmd_pass, irc_cmd_user, irc_cmd_nick,
  irc_cmd_quit, irc_cmd_ping,
}

-- The functions of the table. `null` stands in the rows that only the master process acts on.
pub data Handler : Type 0 where
  pass user nick quit ping pong join names part whois whowas motd mode who privmsg notice nickserv
        away version completions :
      Handler
  userhost ison watch invite topic oper list rehash null : Handler

-- `command_t`, and the flags `IRC_CMD_PRE_LOGIN`, `IRC_CMD_LOGGED_IN`, `IRC_CMD_OPER_ONLY` and
-- `IRC_CMD_TO_MASTER`.
pub record Command : Type 0 where
  pub command : Bytes
  pub required_parameters : ℕ
  pub execute : Handler
  pub flags : ℕ

abbrev pub pre_login : ℕ
pre_login = 1

abbrev pub logged_in_only : ℕ
logged_in_only = 2

abbrev pub oper_only : ℕ
oper_only = 4

abbrev pub to_master : ℕ
to_master = 8

abbrev row : String → ℕ → Handler → ℕ → Command
row name required execute flags = record {
  command = codes name;
  required_parameters = required;
  execute = execute;
  flags = flags;
}

abbrev pub irc_commands : List Command
irc_commands =
    row "pass" 1 pass 0
    ∷ row "user" 4 user 1
    ∷ row "nick" 1 nick 0
    ∷ row "quit" 0 quit 0
    ∷ row "ping" 0 ping 0
    ∷ row "pong" 0 pong 2
    ∷ row "join" 1 join 2
    ∷ row "names" 1 names 2
    ∷ row "part" 1 part 2
    ∷ row "whois" 1 whois 2
    ∷ row "whowas" 1 whowas 2
    ∷ row "motd" 0 motd 2
    ∷ row "mode" 1 mode 2
    ∷ row "who" 0 who 2
    ∷ row "privmsg" 1 privmsg 2
    ∷ row "notice" 1 notice 2
    ∷ row "nickserv" 1 nickserv 2
    ∷ row "ns" 1 nickserv 2
    ∷ row "away" 0 away 2
    ∷ row "version" 0 version 2
    ∷ row "completions" 0 completions 2
    ∷ row "userhost" 1 userhost 2
    ∷ row "ison" 1 ison 2
    ∷ row "watch" 1 watch 2
    ∷ row "invite" 2 invite 2
    ∷ row "topic" 1 topic 2
    ∷ row "oper" 2 oper 2
    ∷ row "list" 0 list 2
    ∷ row "die" 0 null 12
    ∷ row "deaf" 0 null 12
    ∷ row "wallops" 1 null 12
    ∷ row "wall" 1 null 12
    ∷ row "rehash" 0 rehash 4
    ∷ row "restart" 0 null 12
    ∷ row "kill" 2 null 12
    ∷ []

abbrev pub has_flag : Command → ℕ → Bool
has_flag c f = ltb 0 (bit_and c.flags f)

module _ (g : Glib) where
  unfoldable pub find_command : List Command → Bytes → Option Command
  find_command [] name = none
  find_command (c ∷ l) name =
      let rest = find_command l name in if g.strcasecmp c.command name then some c else rest

-- A line of the client, and the addresses that `g_new0` would give while it is handled.
pub record Call : Type 0 where
  pub p : ℕ
  pub q : ℕ
  pub cmd : List Bytes

module _ (g : Glib) {T : Type 0} (h : HashTable T ℕ) (gl : Slist ℕ) (gc : Slist ChannelUser)
    (server : Server T) (other : Handler → List Bytes → Session T → Outcome (Session T)) where
  -- `other` is what the commands do that only a client that is logged in, or an operator, can use.
  -- A call through the null pointer is undefined. `p` and `q` are free addresses.
  unfoldable pub run_handler : Handler → ℕ → ℕ → List Bytes → Session T → Outcome (Session T)
  run_handler pass p q cmd s = irc_cmd_pass h gl gc server p q cmd s
  run_handler user p q cmd s = irc_cmd_user h gl gc server p q cmd s
  run_handler nick p q cmd s = irc_cmd_nick h gl gc server p q cmd s
  run_handler quit p q cmd s = done (irc_cmd_quit h gl gc server cmd s)
  run_handler ping p q cmd s = done (irc_cmd_ping h gl gc server cmd s)
  run_handler null p q cmd s = fault
  run_handler f p q cmd s = other f cmd s

  unfoldable pub exec_command : ℕ → ℕ → Command → List Bytes → Session T → Outcome (Session T)
  exec_command p q c cmd s =
      if has_flag c pre_login && s.logged_in
      then done (reply h gl gc server s (num 462 ∷ []))
      else if has_flag c logged_in_only && not s.logged_in
      then done (reply h gl gc server s (num 451 ∷ []))
      else if has_flag c oper_only && not (contains s.umode b'o')
      then done (reply h gl gc server s (num 481 ∷ []))
      else if ltb (length cmd - 1) c.required_parameters
      then done (reply h gl gc server s (num 461 ∷ []))
      else if has_flag c to_master
      then done (reply h gl gc server s (cmd_to_master cmd ∷ []))
      else run_handler c.execute p q cmd s

  unfoldable pub exec_found : ℕ → ℕ → Option Command → List Bytes → Session T → Outcome (Session T)
  exec_found p q none cmd s =
      done (if s.logged_in then reply h gl gc server s (num 421 ∷ []) else s)
  exec_found p q (some c) cmd s = exec_command p q c cmd s

  unfoldable pub irc_exec : ℕ → ℕ → List Bytes → Session T → Outcome (Session T)
  irc_exec p q [] s = done s
  irc_exec p q (name ∷ args) s = exec_found p q (find_command g irc_commands name) (name ∷ args) s

  unfoldable pub exec_all : List Call → Session T → Outcome (Session T)
  exec_all [] s = done s
  exec_all (call ∷ calls) s = irc_exec call.p call.q call.cmd s >>= exec_all calls
