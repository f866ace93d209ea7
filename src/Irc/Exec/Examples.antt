-- ===== src/Irc/Exec/Examples.antt =====
-- irc.c, irc_commands.c: a client at an empty server, which is open or closed.
use bitl_steam.Common.{
  ◌≡◌, refl, ℕ, Bool, true, false, false≢true, none, some, Bytes, List, [], ◌∷◌, codes, arith, all,
  All, ltb,
}
use mathlib.Core.Path.{subst}
use bitl_steam.Common.Outcome.{done, fault}
use bitl_steam.Glib.Ascii.{ascii}
use bitl_steam.Glib.Assoc.{assoc}
use bitl_steam.Glib.Sorted.{slist}
use bitl_steam.Glib.Members.{mem}
use bitl_steam.Nick.{nick_lc, lower}
use bitl_steam.Irc.User.{Irc, irc_user_by_name}
use bitl_steam.Irc.User.Index.{member}
use bitl_steam.Irc.Channels.{irc_channel_by_name}
use bitl_steam.Irc.User.Users.{IsConsistent}
use bitl_steam.Irc.Login.{Session, Server, root_chan, is_password, irc_check_login}
use bitl_steam.Irc.Login.Enter.{irc_check_login_lem}
use bitl_steam.Irc.Login.Join.{IsInside}
use bitl_steam.Irc.Exec.{Call, irc_exec, exec_all}
use bitl_steam.Irc.Exec.Outside.{IsAscii, Outside, Safe}
use bitl_steam.Irc.Exec.Guard.{IsGuess, exec_all-Safe, irc_exec_early}

abbrev Table : Type 0
Table = List (Bytes × ℕ)

abbrev empty : Irc Table
empty = record {
  store = λ p. none;
  users = [];
  nick_user_hash = [];
  user = 0;
  root = 1;
  channels = [];
  ops = codes "both";
  shutdown = false;
  simulate_netsplit = true;
  root_host = codes "localhost";
  last_ic = none;
  msg = [];
  sent = [];
}

empty-IsConsistent : IsConsistent assoc slist slist empty
unfolding mem assoc
empty-IsConsistent = record {
  index = record {
    once = tt;
    stored = λ p e. absurd (false≢true e);
    found = λ k p. (λ e. cc, λ e. cc);
  };
  sorted = tt;
  keyed = λ p e. tt;
}

-- A client that has given nothing yet.
abbrev session : Session Table
session = record {
  irc = empty;
  nick = none;
  user = none;
  host = codes "localhost";
  authorized = false;
  logged_in = false;
  identified = false;
  password = none;
  umode = [];
  replies = [];
}

abbrev server : Bool → Server Table
server is_closed = record {
  auth_pass = some (codes "secret");
  is_closed = is_closed;
  is_daemon = false;
  md5 = λ s. s;
  auto_join = λ q. false;
  glib = ascii;
  root_function = λ f cmd s. done s;
}

abbrev calls : List Call
calls =
    record { p = 2; q = 3; cmd = codes "PASS" ∷ codes "guess" ∷ [] }
    ∷ record { p = 2; q = 3; cmd = codes "NICK" ∷ codes "Bee" ∷ [] }
    ∷ record {
      p = 2;
      q = 3;
      cmd = codes "USER" ∷ codes "bee" ∷ codes "0" ∷ codes "0" ∷ codes "Maya" ∷ [];
    }
    ∷ record { p = 2; q = 3; cmd = codes "JOIN" ∷ codes "&bitlbee" ∷ [] }
    ∷ []

outside : Outside ascii assoc slist slist (server true) empty session
outside = record { out = refl; unauthorized = refl; no_oper = refl; same = refl }

wrong :
    (is_password (λ s. s) (codes "secret") (codes "guess") ≡ false)
    × (is_password (λ s. s) (codes "secret") (codes "Bee") ≡ false)
    × (is_password (λ s. s) (codes "secret") (codes "bee") ≡ false)
    × (is_password (λ s. s) (codes "secret") (codes "&bitlbee") ≡ false)
unfolding is_password
wrong = (refl, refl, refl, refl)

guess :
    (name word : Bytes) (args : List Bytes)
    → is_password (λ s. s) (codes "secret") word ≡ false
    → IsGuess ascii assoc slist slist (server true) (codes "secret") (name ∷ word ∷ args)
guess name word args wrong c given e f a =
    subst (λ x. is_password (λ s. s) (codes "secret") x ≡ false) (some_eq a) wrong
  where
    some_eq : {x y : Bytes} → some x ≡ some y → x ≡ y
    some_eq q = cc

plain_word : (w : Bytes) → all (λ c. ltb c 128) w ≡ true → IsAscii w
plain_word [] e = tt
plain_word (c ∷ w) e = (ground arith, plain_word w (ground arith))

plain : (cmd : List Bytes) → all (λ w. all (λ c. ltb c 128) w) cmd ≡ true → All IsAscii cmd
plain [] e = tt
plain (w ∷ cmd) e = (plain_word w (ground arith), plain cmd (ground arith))

guesses :
    All
      (λ call.
        All IsAscii call.cmd
        × IsGuess ascii assoc slist slist (server true) (codes "secret") call.cmd)
      calls
guesses = (
  (plain (codes "PASS" ∷ codes "guess" ∷ []) refl, guess (codes "PASS") (codes "guess") [] wrong.0),
  (
    (plain (codes "NICK" ∷ codes "Bee" ∷ []) refl, guess (codes "NICK") (codes "Bee") [] wrong.1),
    (
      (
        plain (codes "USER" ∷ codes "bee" ∷ codes "0" ∷ codes "0" ∷ codes "Maya" ∷ []) refl,
        guess (codes "USER") (codes "bee") (codes "0" ∷ codes "0" ∷ codes "Maya" ∷ []) wrong.2,
      ),
      (
        (
          plain (codes "JOIN" ∷ codes "&bitlbee" ∷ []) refl,
          guess (codes "JOIN") (codes "&bitlbee") [] wrong.3,
        ),
        tt,
      ),
    ),
  ),
)

exec_all-Safe_example :
    Safe ascii assoc slist slist
      (server true)
      empty
      (exec_all ascii assoc slist slist (server true) (λ f cmd s. fault) calls session)
exec_all-Safe_example =
    exec_all-Safe ascii assoc slist slist (server true) empty session calls (codes "secret")
      (λ f cmd s. fault) refl refl guesses outside

irc_exec_early_example :
    irc_exec ascii assoc slist slist
      (server false)
      (λ f cmd s. fault)
      2
      3
      (codes "JOIN" ∷ codes "&bitlbee" ∷ [])
      session
    ≡ irc_exec ascii assoc slist slist
        (server false)
        (λ f cmd s. done s)
        2
        3
        (codes "JOIN" ∷ codes "&bitlbee" ∷ [])
        session
irc_exec_early_example =
    irc_exec_early ascii assoc slist slist (server false) 2 3 (codes "JOIN" ∷ codes "&bitlbee" ∷ [])
      session (λ f cmd s. fault) (λ f cmd s. done s) refl refl

abbrev ready : Session Table
ready = record session { nick = some (codes "Bee"); user = some (codes "bee", codes "Maya") }

lowered : nick_lc (codes "Bee") ≡ done (true, codes "bee")
unfolding nick_lc lower
lowered = refl

nobody : irc_user_by_name assoc slist slist empty (codes "Bee") ≡ done none
unfolding irc_user_by_name nick_lc lower assoc
nobody = refl

fresh : (member empty.users 2 ≡ false) × (irc_channel_by_name empty.channels root_chan ≡ none)
unfolding mem irc_channel_by_name
fresh = (refl, refl)

irc_check_login_lem_example :
    (t : Session Table) × (irc_check_login assoc slist slist (server false) 2 3 ready ≡ done t)
    × (t.logged_in ≡ true)
    × (t.umode ≡ codes "s")
    × IsConsistent assoc slist slist t.irc
    × (irc_user_by_name assoc slist slist t.irc (codes "Bee") ≡ done (some 2))
    × (t.irc.user ≡ 2)
    × IsInside assoc slist slist (server false) root_chan 2 t.irc.channels
irc_check_login_lem_example =
    irc_check_login_lem assoc slist slist (server false) ready 2 3 (codes "bee", codes "Maya")
      (codes "Bee") (codes "bee") refl refl refl refl lowered empty-IsConsistent fresh.0 nobody
      fresh.1
