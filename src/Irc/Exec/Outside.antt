-- ===== src/Irc/Exec/Outside.antt =====
-- irc_commands.c: what is true of a client that has not logged in.
use bitl_steam.Common.{
  ℕ, ◌≡◌, refl, Bool, true, false, not, ◌&&◌, Option, none, some, List, [], ◌∷◌, Bytes, contains,
  ltb, ◌==◌, if◌then◌else◌, All, arith, if_both,
}
use bitl_steam.Common.Outcome.{Outcome, done, fault, ◌>>=◌}
use bitl_steam.Glib.{Glib, HashTable}
use bitl_steam.Glib.Slist.{Slist}
use bitl_steam.Nick.{convert, lower}
use bitl_steam.Irc.Channel.{ChannelUser}
use bitl_steam.Irc.User.{Irc}
use bitl_steam.Irc.Login.{Session, Server, Reply, num, reply, complete, irc_check_login}
use bitl_steam.Irc.Exec.{Handler}

-- The functions that a client needs to log in, and to leave.
abbrev pub is_early : Handler → Bool
is_early Handler.pass = true
is_early Handler.user = true
is_early Handler.nick = true
is_early Handler.quit = true
is_early Handler.ping = true
is_early f = false

-- How many arguments each of them reads without a test.
abbrev pub arity : Handler → ℕ
arity Handler.pass = 1
arity Handler.user = 4
arity Handler.nick = 1
arity f = 0

-- Every byte is below 128.
abbrev pub IsAscii : Bytes → Type 0
IsAscii = All (λ c. ltb c 128 ≡ true)

abbrev pub IsDone : {A : Type 0} → Outcome A → Type 0
IsDone fault = ⊥
IsDone (done a) = Unit

pub map-IsDone :
    {A B : Type 0} (m : Outcome A) (f : A → B) → IsDone m → IsDone (m >>= λ a. done (f a))
map-IsDone fault f d = d
map-IsDone (done a) f d = tt

pub convert-IsDone : (s : Bytes) → IsAscii s → IsDone (convert lower s)
unfolding convert
convert-IsDone [] plain = tt
convert-IsDone (c ∷ s) (here, plain) =
    rw here (
      if_both IsDone (lower c == 0) _ _ tt
        (map-IsDone (convert lower s) _ (convert-IsDone s plain)))

pub ltb_zero : (i : ℕ) → ltb i 0 ≡ false
ltb_zero i = ground arith

module _ (g : Glib) {T : Type 0} (h : HashTable T ℕ) (gl : Slist ℕ) (gc : Slist ChannelUser)
    (server : Server T) where
  -- A client that has neither logged in nor given the server's password, with users and channels as
  -- in `irc`.
  pub record Outside (irc : Irc T) (s : Session T) : Type 0 where
    pub out : s.logged_in ≡ false
    pub unauthorized : s.authorized ≡ false
    pub no_oper : contains s.umode b'o' ≡ false
    pub same : s.irc ≡ irc

  -- The code's behaviour is defined, and the client is still outside.
  abbrev pub Safe : Irc T → Outcome (Session T) → Type 0
  Safe irc fault = ⊥
  Safe irc (done s) = Outside irc s

  pub reply-Outside :
      (irc : Irc T) (s : Session T) (l : List Reply)
      → Outside irc s
      → Outside irc (reply h gl gc server s l)
  reply-Outside irc s l o = record {
    out = o.out;
    unauthorized = o.unauthorized;
    no_oper = o.no_oper;
    same = o.same;
  }

  pub complete-Safe :
      (irc : Irc T) (s : Session T) (p q : ℕ) (user : Option (Bytes × Bytes)) (nick : Option Bytes)
      → server.is_closed ≡ true
      → Outside irc s
      → Safe irc (complete h gl gc server p q user nick s)
  unfolding complete
  complete-Safe irc s p q none nick closed o = o
  complete-Safe irc s p q (some user) none closed o = o
  complete-Safe irc s p q (some user) (some nick) closed o =
      let barred : (server.is_closed && not s.authorized) ≡ true =
        (let u = o.unauthorized in ground arith) in
      rw barred (reply-Outside irc s (num 464 ∷ []) o)

  pub check_login-Safe :
      (irc : Irc T) (s : Session T) (p q : ℕ)
      → server.is_closed ≡ true
      → Outside irc s
      → Safe irc (irc_check_login h gl gc server p q s)
  unfolding irc_check_login
  check_login-Safe irc s p q closed o = complete-Safe irc s p q s.user s.nick closed o

  pub bind-Safe :
      {A : Type 0} (irc : Irc T) (m : Outcome A) (f : A → Outcome (Session T))
      → IsDone m
      → ((a : A) → m ≡ done a → Safe irc (f a))
      → Safe irc (m >>= f)
  bind-Safe irc fault f d k = d
  bind-Safe irc (done a) f d k = k a refl

  pub then-Safe :
      (irc : Irc T) (m : Outcome (Session T)) (f : Session T → Outcome (Session T))
      → Safe irc m
      → ((t : Session T) → Outside irc t → Safe irc (f t))
      → Safe irc (m >>= f)
  then-Safe irc fault f k n = k
  then-Safe irc (done t) f k n = n t k

  pub if-Safe :
      (irc : Irc T) (b : Bool) (x y : Outcome (Session T))
      → (b ≡ true → Safe irc x)
      → (b ≡ false → Safe irc y)
      → Safe irc (if b then x else y)
  if-Safe irc true x y k m = k refl
  if-Safe irc false x y k m = m refl
