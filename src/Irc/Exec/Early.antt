-- ===== src/Irc/Exec/Early.antt =====
-- irc_commands.c: PASS, USER, NICK, QUIT and PING at a closed server.
use bitl_steam.Common.{
  ℕ, zero, suc, ◌≡◌, refl, sym, ◌∙◌, true, false, not, Option, none, some, List, [], ◌∷◌, Bytes,
  length, ltb, get_elem?, false≢true, All, arith,
}
use mathlib.Core.Path.{subst}
use bitl_steam.Common.Outcome.{Outcome, done, fault}
use bitl_steam.Glib.{Glib, HashTable}
use bitl_steam.Glib.Slist.{Slist}
use bitl_steam.Nick.{nick_ok, nick_lc, convert, lower}
use bitl_steam.Irc.Channel.{ChannelUser}
use bitl_steam.Irc.User.{Irc, irc_user_by_name, is_other}
use bitl_steam.Irc.Login.{
  Session, Server, num, arg, is_password, pass_before, irc_cmd_pass, irc_cmd_user, irc_cmd_nick,
  irc_cmd_quit, irc_cmd_ping,
}
use bitl_steam.Irc.Exec.{Handler, run_handler}
use bitl_steam.Irc.Exec.Outside.{
  is_early, arity, IsAscii, IsDone, map-IsDone, convert-IsDone, ltb_zero, Outside, Safe,
  reply-Outside, check_login-Safe, bind-Safe, if-Safe,
}

module _ (g : Glib) {T : Type 0} (h : HashTable T ℕ) (gl : Slist ℕ) (gc : Slist ChannelUser)
    (server : Server T) where
  arg-IsDone : (cmd : List Bytes) (i : ℕ) → ltb i (length cmd) ≡ true → IsDone (arg cmd i)
  unfolding arg
  arg-IsDone [] i e = absurd (false≢true (sym (ltb_zero i) ∙ e))
  arg-IsDone (c ∷ cmd) zero e = tt
  arg-IsDone (c ∷ cmd) (suc i) e = arg-IsDone cmd i (ground arith)

  arg-done : (cmd : List Bytes) (i : ℕ) (a : Bytes) → arg cmd i ≡ done a → get_elem? cmd i ≡ some a
  unfolding arg
  arg-done cmd i a = of_elem (get_elem? cmd i)
    where
      of_elem : (o : Option Bytes) → elim o [ none ↦ fault | some b ↦ done b ] ≡ done a → o ≡ some a
      of_elem none e = cc
      of_elem (some b) e = cc

  pass_before-Safe :
      (irc : Irc T) (s : Session T) (p q : ℕ) (given : Bytes) (auth : Option Bytes)
      (auth_pass : Bytes)
      → auth ≡ some auth_pass
      → is_password server.md5 auth_pass given ≡ false
      → Outside g h gl gc server irc s
      → Safe g h gl gc server irc (pass_before h gl gc server p q auth given s)
  unfolding pass_before
  pass_before-Safe irc s p q given auth auth_pass e wrong o =
      rw (e, wrong) (reply-Outside g h gl gc server irc s (num 464 ∷ []) o)

  pass-Safe :
      (irc : Irc T) (s : Session T) (p q : ℕ) (cmd : List Bytes) (auth_pass : Bytes)
      → ltb 1 (length cmd) ≡ true
      → server.auth_pass ≡ some auth_pass
      → ((given : Bytes)
          → get_elem? cmd 1 ≡ some given
          → is_password server.md5 auth_pass given ≡ false)
      → Outside g h gl gc server irc s
      → Safe g h gl gc server irc (irc_cmd_pass h gl gc server p q cmd s)
  unfolding irc_cmd_pass
  pass-Safe irc s p q cmd auth_pass enough auth wrong o =
      bind-Safe g h gl gc server irc (arg cmd 1) _ (arg-IsDone cmd 1 enough) λ given e.
        if-Safe g h gl gc server irc s.logged_in _ _ (λ now. absurd (false≢true (sym o.out ∙ now)))
          (λ _.
            pass_before-Safe irc s p q given server.auth_pass auth_pass auth
              (wrong given (arg-done cmd 1 given e)) o)

  user-Safe :
      (irc : Irc T) (s : Session T) (p q : ℕ) (cmd : List Bytes)
      → ltb 4 (length cmd) ≡ true
      → server.is_closed ≡ true
      → Outside g h gl gc server irc s
      → Safe g h gl gc server irc (irc_cmd_user h gl gc server p q cmd s)
  unfolding irc_cmd_user
  user-Safe irc s p q cmd enough closed o =
      bind-Safe g h gl gc server irc (arg cmd 1) _ (arg-IsDone cmd 1 (ground arith)) λ user e.
        bind-Safe g h gl gc server irc (arg cmd 4) _ (arg-IsDone cmd 4 enough) λ fullname e.
          check_login-Safe g h gl gc server irc (record s { user = some (user, fullname) }) p q
            closed
            (record {
              out = o.out;
              unauthorized = o.unauthorized;
              no_oper = o.no_oper;
              same = o.same;
            })

  arg-IsAscii :
      (cmd : List Bytes) (i : ℕ) (a : Bytes)
      → All IsAscii cmd
      → get_elem? cmd i ≡ some a
      → IsAscii a
  arg-IsAscii [] i a plain e = cc
  arg-IsAscii (c ∷ cmd) zero a (plain, _) e = subst IsAscii (some_eq e) plain
    where
      some_eq : {x y : Bytes} → some x ≡ some y → x ≡ y
      some_eq q = cc
  arg-IsAscii (c ∷ cmd) (suc i) a (_, plain) e = arg-IsAscii cmd i a plain e

  by_name-IsDone :
      (irc : Irc T) (nick : Bytes) → IsAscii nick → IsDone (irc_user_by_name h gl gc irc nick)
  unfolding irc_user_by_name nick_lc
  by_name-IsDone irc nick plain = map-IsDone (convert lower nick) _ (convert-IsDone nick plain)

  nick-Safe :
      (irc : Irc T) (s : Session T) (p q : ℕ) (cmd : List Bytes)
      → ltb 1 (length cmd) ≡ true
      → All IsAscii cmd
      → server.is_closed ≡ true
      → Outside g h gl gc server irc s
      → Safe g h gl gc server irc (irc_cmd_nick h gl gc server p q cmd s)
  unfolding irc_cmd_nick
  nick-Safe irc s p q cmd enough plain closed o =
      bind-Safe g h gl gc server irc (arg cmd 1) _ (arg-IsDone cmd 1 enough) λ nick e.
        bind-Safe g h gl gc server irc (irc_user_by_name h gl gc s.irc nick) _
          (by_name-IsDone s.irc nick (arg-IsAscii cmd 1 nick plain (arg-done cmd 1 nick e)))
          λ iu e.
            if-Safe g h gl gc server irc (is_other h gl gc s.irc.user iu) _ _
              (λ _. reply-Outside g h gl gc server irc s (num 433 ∷ []) o)
              λ _.
                if-Safe g h gl gc server irc (not (nick_ok nick)) _ _
                  (λ _. reply-Outside g h gl gc server irc s (num 432 ∷ []) o)
                  λ _.
                    if-Safe g h gl gc server irc s.logged_in _ _
                      (λ now. absurd (false≢true (sym o.out ∙ now)))
                      λ _.
                        check_login-Safe g h gl gc server irc (record s { nick = some nick }) p q
                          closed
                          (record {
                            out = o.out;
                            unauthorized = o.unauthorized;
                            no_oper = o.no_oper;
                            same = o.same;
                          })

  pub handler-Safe :
      (irc : Irc T) (s : Session T) (p q : ℕ) (f : Handler) (cmd : List Bytes) (auth_pass : Bytes)
      (other : Handler → List Bytes → Session T → Outcome (Session T))
      → is_early f ≡ true
      → ltb (arity f) (length cmd) ≡ true
      → All IsAscii cmd
      → server.is_closed ≡ true
      → server.auth_pass ≡ some auth_pass
      → (f ≡ Handler.pass
          → (given : Bytes) → get_elem? cmd 1 ≡ some given
          → is_password server.md5 auth_pass given ≡ false)
      → Outside g h gl gc server irc s
      → Safe g h gl gc server irc (run_handler g h gl gc server other f p q cmd s)
  unfolding run_handler
  handler-Safe irc s p q Handler.pass cmd auth_pass other early enough plain closed auth wrong o =
      pass-Safe irc s p q cmd auth_pass enough auth (wrong refl) o
  handler-Safe irc s p q Handler.user cmd auth_pass other early enough plain closed auth wrong o =
      user-Safe irc s p q cmd enough closed o
  handler-Safe irc s p q Handler.nick cmd auth_pass other early enough plain closed auth wrong o =
      nick-Safe irc s p q cmd enough plain closed o
  handler-Safe irc s p q Handler.quit cmd auth_pass other early enough plain closed auth wrong o =
      unfold irc_cmd_quit in reply-Outside g h gl gc server irc s _ o
  handler-Safe irc s p q Handler.ping cmd auth_pass other early enough plain closed auth wrong o =
      unfold irc_cmd_ping in reply-Outside g h gl gc server irc s _ o
  handler-Safe irc s p q f cmd auth_pass other early enough plain closed auth wrong o =
      absurd (false≢true early)
