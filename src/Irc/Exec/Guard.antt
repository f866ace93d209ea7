-- ===== src/Irc/Exec/Guard.antt =====
-- irc_commands.c: what a client can do before it has logged in.
use bitl_steam.Common.{
  ℕ, ◌-◌, ◌≡◌, refl, sym, ◌∙◌, Bool, true, false, not, ◌&&◌, ◌||◌, Option, none, some, List, [],
  ◌∷◌, Bytes, contains, length, ltb, leb, get_elem?, false≢true, if◌then◌else◌, All, all, arith,
  if_both, Bool-cases, Option-cases, inl, inr,
}
use mathlib.Core.Path.{subst}
use bitl_steam.Common.Outcome.{Outcome}
use bitl_steam.Glib.{Glib, HashTable}
use bitl_steam.Glib.Slist.{Slist}
use bitl_steam.Irc.Channel.{ChannelUser}
use bitl_steam.Irc.User.{Irc}
use bitl_steam.Irc.Login.{Session, Server, is_password}
use bitl_steam.Irc.Exec.Outside.{
  is_early, arity, IsAscii, Outside, Safe, reply-Outside, then-Safe, if-Safe,
}
use bitl_steam.Irc.Exec.Early.{handler-Safe}
use bitl_steam.Irc.Exec.{
  Handler, Command, pre_login, logged_in_only, oper_only, to_master, irc_commands, has_flag,
  find_command, run_handler, exec_command, exec_found, irc_exec, Call, exec_all,
}

abbrev pub is_guarded : Command → Bool
is_guarded c =
    has_flag c logged_in_only
    || has_flag c oper_only
    || (is_early c.execute && leb (arity c.execute) c.required_parameters)

rows_guarded : all is_guarded irc_commands ≡ true
rows_guarded = refl

-- A row that is neither for clients that are logged in nor for operators is an early one.
by_flags :
    (login oper early enough now op : Bool)
    → (login || oper || (early && enough)) ≡ true
    → now ≡ false
    → op ≡ false
    → (login && not now) ≡ false
    → (oper && not op) ≡ false
    → (early ≡ true) × (enough ≡ true)
by_flags login oper early enough now op a b c d e = (ground arith, ground arith)

module _ (g : Glib) where
  find_command-all :
      (test : Command → Bool) (l : List Command) (name : Bytes) (c : Command)
      → all test l ≡ true
      → find_command g l name ≡ some c
      → test c ≡ true
  unfolding find_command
  find_command-all test [] name c h e = cc
  find_command-all test (d ∷ l) name c h e = elim (Bool-cases (g.strcasecmp d.command name)) [
    | inl m ↦
        (let same : d ≡ c = some_eq (sym (rw m refl) ∙ e) in
          subst (λ x. test x ≡ true) same (ground arith))
    | inr m ↦ find_command-all test l name c (ground arith) (sym (rw m refl) ∙ e)
  ]
    where
      some_eq : {x y : Command} → some x ≡ some y → x ≡ y
      some_eq q = cc

module _ (g : Glib) {T : Type 0} (h : HashTable T ℕ) (gl : Slist ℕ) (gc : Slist ChannelUser)
    (server : Server T) where
  -- The command does not give the server's password.
  abbrev pub IsGuess : Bytes → List Bytes → Type 0
  IsGuess auth_pass [] = Unit
  IsGuess auth_pass (name ∷ args) =
      (c : Command) (given : Bytes)
      → find_command g irc_commands name ≡ some c
      → c.execute ≡ Handler.pass
      → get_elem? args 0 ≡ some given
      → is_password server.md5 auth_pass given ≡ false

  command-Safe :
      (irc : Irc T) (s : Session T) (p q : ℕ) (c : Command) (cmd : List Bytes) (auth_pass : Bytes)
      (other : Handler → List Bytes → Session T → Outcome (Session T))
      → is_guarded c ≡ true
      → ltb 0 (length cmd) ≡ true
      → All IsAscii cmd
      → server.is_closed ≡ true
      → server.auth_pass ≡ some auth_pass
      → (c.execute ≡ Handler.pass
          → (given : Bytes) → get_elem? cmd 1 ≡ some given
          → is_password server.md5 auth_pass given ≡ false)
      → Outside g h gl gc server irc s
      → Safe g h gl gc server irc (exec_command g h gl gc server other p q c cmd s)
  unfolding exec_command
  command-Safe irc s p q c cmd auth_pass other row some_words plain closed auth wrong o =
      if-Safe g h gl gc server irc (has_flag c pre_login && s.logged_in) _ _
        (λ _. reply-Outside g h gl gc server irc s _ o)
        λ _.
          if-Safe g h gl gc server irc (has_flag c logged_in_only && not s.logged_in) _ _
            (λ _. reply-Outside g h gl gc server irc s _ o)
            λ free.
              if-Safe g h gl gc server irc (has_flag c oper_only && not (contains s.umode b'o')) _ _
                (λ _. reply-Outside g h gl gc server irc s _ o)
                λ anyone.
                  if-Safe g h gl gc server irc (ltb (length cmd - 1) c.required_parameters) _ _
                    (λ _. reply-Outside g h gl gc server irc s _ o)
                    λ enough.
                      if-Safe g h gl gc server irc (has_flag c to_master) _ _
                        (λ _. reply-Outside g h gl gc server irc s _ o)
                        λ _.
                          handler-Safe g h gl gc server irc s p q c.execute cmd auth_pass other
                            (by_row free anyone).0 (arguments enough free anyone) plain closed auth
                            wrong o
    where
      by_row :
          (has_flag c logged_in_only && not s.logged_in) ≡ false
          → (has_flag c oper_only && not (contains s.umode b'o')) ≡ false
          → (is_early c.execute ≡ true) × (leb (arity c.execute) c.required_parameters ≡ true)
      by_row free anyone =
          by_flags (has_flag c logged_in_only) (has_flag c oper_only) (is_early c.execute)
            (leb (arity c.execute) c.required_parameters) s.logged_in (contains s.umode b'o') row
            o.out o.no_oper free anyone

      arguments :
          ltb (length cmd - 1) c.required_parameters ≡ false
          → (has_flag c logged_in_only && not s.logged_in) ≡ false
          → (has_flag c oper_only && not (contains s.umode b'o')) ≡ false
          → ltb (arity c.execute) (length cmd) ≡ true
      arguments enough free anyone = (let e = by_row free anyone in ground arith)

  found-Safe :
      (irc : Irc T) (s : Session T) (p q : ℕ) (name : Bytes) (args : List Bytes) (auth_pass : Bytes)
      (other : Handler → List Bytes → Session T → Outcome (Session T)) (c : Option Command)
      → find_command g irc_commands name ≡ c
      → All IsAscii (name ∷ args)
      → server.is_closed ≡ true
      → server.auth_pass ≡ some auth_pass
      → IsGuess auth_pass (name ∷ args)
      → Outside g h gl gc server irc s
      → Safe g h gl gc server irc (exec_found g h gl gc server other p q c (name ∷ args) s)
  unfolding exec_found
  found-Safe irc s p q name args auth_pass other none e plain closed auth guess o =
      if_both (Outside g h gl gc server irc) s.logged_in _ _
        (reply-Outside g h gl gc server irc s _ o) o
  found-Safe irc s p q name args auth_pass other (some c) e plain closed auth guess o =
      command-Safe irc s p q c (name ∷ args) auth_pass other
        (find_command-all g is_guarded irc_commands name c rows_guarded e) (ground arith) plain
        closed auth (λ is_pass given a. guess c given e is_pass a) o

  exec-Safe :
      (irc : Irc T) (s : Session T) (p q : ℕ) (cmd : List Bytes) (auth_pass : Bytes)
      (other : Handler → List Bytes → Session T → Outcome (Session T))
      → All IsAscii cmd
      → server.is_closed ≡ true
      → server.auth_pass ≡ some auth_pass
      → IsGuess auth_pass cmd
      → Outside g h gl gc server irc s
      → Safe g h gl gc server irc (irc_exec g h gl gc server other p q cmd s)
  unfolding irc_exec
  exec-Safe irc s p q [] auth_pass other plain closed auth guess o = o
  exec-Safe irc s p q (name ∷ args) auth_pass other plain closed auth guess o =
      found-Safe irc s p q name args auth_pass other (find_command g irc_commands name) refl plain
        closed auth guess o

  -- On a server that is closed, with a password, for a client that has neither logged in nor given
  -- that password: whatever ASCII text it sends, in whatever order, as long as it never gives that
  -- password to PASS, the behaviour is defined, the client is not logged in, is no operator, and
  -- users and channels are as they were; whatever the other commands may do.
  pub exec_all-Safe :
      (irc : Irc T) (s : Session T) (calls : List Call) (auth_pass : Bytes)
      (other : Handler → List Bytes → Session T → Outcome (Session T))
      → server.is_closed ≡ true
      → server.auth_pass ≡ some auth_pass
      → All (λ call. All IsAscii call.cmd × IsGuess auth_pass call.cmd) calls
      → Outside g h gl gc server irc s
      → Safe g h gl gc server irc (exec_all g h gl gc server other calls s)
  unfolding exec_all
  exec_all-Safe irc s [] auth_pass other closed auth guesses o = o
  exec_all-Safe irc s (call ∷ calls) auth_pass other closed auth ((plain, guess), guesses) o =
      then-Safe g h gl gc server irc (irc_exec g h gl gc server other call.p call.q call.cmd s)
        (exec_all g h gl gc server other calls)
        (exec-Safe irc s call.p call.q call.cmd auth_pass other plain closed auth guess o)
        (λ t k. exec_all-Safe irc t calls auth_pass other closed auth guesses k)

  early-same :
      (f : Handler) (p q : ℕ) (cmd : List Bytes) (s : Session T)
      (other another : Handler → List Bytes → Session T → Outcome (Session T))
      → is_early f ≡ true
      → run_handler g h gl gc server other f p q cmd s
        ≡ run_handler g h gl gc server another f p q cmd s
  unfolding run_handler
  early-same Handler.pass p q cmd s other another e = refl
  early-same Handler.user p q cmd s other another e = refl
  early-same Handler.nick p q cmd s other another e = refl
  early-same Handler.quit p q cmd s other another e = refl
  early-same Handler.ping p q cmd s other another e = refl
  early-same f p q cmd s other another e = absurd (false≢true e)

  else_same :
      (b : Bool) (x y z : Outcome (Session T))
      → (b ≡ false → y ≡ z)
      → (if b then x else y) ≡ (if b then x else z)
  else_same true x y z k = refl
  else_same false x y z k = k refl

  command-same :
      (c : Command) (p q : ℕ) (cmd : List Bytes) (s : Session T)
      (other another : Handler → List Bytes → Session T → Outcome (Session T))
      → is_guarded c ≡ true
      → s.logged_in ≡ false
      → contains s.umode b'o' ≡ false
      → exec_command g h gl gc server other p q c cmd s
        ≡ exec_command g h gl gc server another p q c cmd s
  unfolding exec_command
  command-same c p q cmd s other another row out no_oper =
      else_same (has_flag c pre_login && s.logged_in) _ _ _ λ _.
        else_same (has_flag c logged_in_only && not s.logged_in) _ _ _ λ free.
          else_same (has_flag c oper_only && not (contains s.umode b'o')) _ _ _ λ anyone.
            else_same (ltb (length cmd - 1) c.required_parameters) _ _ _ λ _.
              else_same (has_flag c to_master) _ _ _ λ _.
                early-same c.execute p q cmd s other another
                  (by_flags (has_flag c logged_in_only) (has_flag c oper_only) (is_early c.execute)
                    (leb (arity c.execute) c.required_parameters) s.logged_in
                    (contains s.umode b'o') row out no_oper free anyone).0

  -- On every server, for a client that has not logged in and is no operator: what a line does does
  -- not depend on what the commands other than PASS, USER, NICK, QUIT and PING do. They are not run.
  pub irc_exec_early :
      (p q : ℕ) (cmd : List Bytes) (s : Session T)
      (other another : Handler → List Bytes → Session T → Outcome (Session T))
      → s.logged_in ≡ false
      → contains s.umode b'o' ≡ false
      → irc_exec g h gl gc server other p q cmd s ≡ irc_exec g h gl gc server another p q cmd s
  unfolding irc_exec exec_found
  irc_exec_early p q [] s other another out no_oper = refl
  irc_exec_early p q (name ∷ args) s other another out no_oper =
      elim (Option-cases (find_command g irc_commands name)) [
        | inl e ↦ rw e refl
        | inr (c, e) ↦ rw e (
            command-same c p q (name ∷ args) s other another
              (find_command-all g is_guarded irc_commands name c rows_guarded e) out no_oper)
      ]
