-- ===== src/Irc/Login/Enter.antt =====
-- irc.c: what a login leaves behind.
use bitl_steam.Common.{
  ℕ, ◌≡◌, refl, ◌∙◌, true, false, not, ◌&&◌, Option, none, some, [], Bytes, codes, ◌==◌, ==_refl,
  strcmp_eq_iff, arith, Bool-cases, inl, inr,
}
use mathlib.Core.Path.{fun_ext}
use bitl_steam.Common.Outcome.{done}
use bitl_steam.Glib.{HashTable}
use bitl_steam.Glib.Slist.{Slist}
use bitl_steam.Nick.{nick_lc, strcmp}
use bitl_steam.Irc.Umode.{Answer, irc_umode_set}
use bitl_steam.Irc.Channel.{ChannelUser}
use bitl_steam.Irc.Channels.{irc_channel_by_name}
use bitl_steam.Irc.User.{
  IrcUser, Irc, own, the_nick, write, user_cmp, key_of, insert, irc_user_new, irc_user_by_name,
}
use bitl_steam.Irc.User.Index.{member}
use bitl_steam.Irc.User.Users.{IsConsistent, insert-IsConsistent, by_name_lookup}
use bitl_steam.Irc.Login.Join.{IsInside, enter_channel_lem}
use bitl_steam.Irc.Login.{
  Session, Server, root_chan, as_client, enter_user, enter_channel, try_password, welcomed, log_in,
  complete, irc_check_login,
}

-- A second write to an address hides the first, and the order by keys sees keys only.
write_again :
    (store : ℕ → Option IrcUser) (p : ℕ) (user : Bytes × Bytes) (host : Bytes) (iu : IrcUser)
    → write (write store p (some iu)) p (as_client user host (write store p (some iu) p))
      ≡ write store p (as_client user host (some iu))
unfolding write
write_again store p user host iu =
    fun_ext λ q. elim (Bool-cases (p == q)) [ inl e ↦ rw (e, ==_refl p) refl | inr e ↦ rw e refl ]

key_of-write :
    (store : ℕ → Option IrcUser) (p q : ℕ) (x y : IrcUser)
    → x.key ≡ y.key
    → key_of (write store p (some x) q) ≡ key_of (write store p (some y) q)
unfolding write
key_of-write store p q x y e = elim (Bool-cases (p == q)) [ inl m ↦ rw m e | inr m ↦ rw m refl ]

user_cmp-write :
    (store : ℕ → Option IrcUser) (p : ℕ) (x y : IrcUser)
    → x.key ≡ y.key
    → user_cmp (write store p (some x)) ≡ user_cmp (write store p (some y))
unfolding user_cmp
user_cmp-write store p x y e =
    fun_ext λ a.
      fun_ext λ b. λ i. strcmp (key_of-write store p a x y e i) (key_of-write store p b x y e i)

module _ {T : Type 0} (h : HashTable T ℕ) (gl : Slist ℕ) (gc : Slist ChannelUser)
    (server : Server T) where
  abbrev pub client : Bytes × Bytes → Bytes → Bytes → Bytes → IrcUser
  client user host nick key = record {
    nick = nick;
    user = own user.0;
    host = own host;
    fullname = own user.1;
    key = key;
    bu = none;
  }

  abbrev entered : ℕ → IrcUser → Irc T → Irc T
  entered p iu irc = record (insert h gl gc p iu irc) { user = p }

  enter_user_lem :
      (p : ℕ) (user : Bytes × Bytes) (host nick key : Bytes) (irc : Irc T)
      → nick_lc nick ≡ done (true, key)
      → enter_user h gl gc server p user host nick irc
        ≡ done (entered p (client user host nick key) irc)
  unfolding enter_user irc_user_new insert as_client
  enter_user_lem p user host nick key irc lowered = rw lowered (
      let plain : IrcUser = record {
        nick = nick;
        user = the_nick;
        host = the_nick;
        fullname = the_nick;
        key = key;
        bu = none;
      } in
      let stores = write_again irc.store p user host plain in
      let orders = user_cmp-write irc.store p plain (client user host nick key) refl in
      λ i. done (record irc {
        store = stores i;
        users = gl.insert_sorted (orders i) p irc.users;
        nick_user_hash = h.replace irc.nick_user_hash key p;
        user = p;
      }))

  -- The default modes.
  abbrev plus_s : Answer
  plus_s = record { umode = codes "s"; changes = codes "+s"; badflag = false }

  default_umode : irc_umode_set true [] (codes "+s") ≡ done plus_s
  unfolding irc_umode_set
  default_umode = refl

  found_again :
      (irc : Irc T) (t : T) (p : ℕ) (nick key : Bytes)
      → nick_lc nick ≡ done (true, key)
      → irc.nick_user_hash ≡ h.replace t key p
      → irc_user_by_name h gl gc irc nick ≡ done (some p)
  found_again irc t p nick key lowered e =
      by_name_lookup h gl gc irc nick key lowered
      ∙ rw (e, h.lookup-replace t key key p, (strcmp_eq_iff key key).1 refl) refl

  logged_in_by :
      (s : Session T) (p q : ℕ) (user : Bytes × Bytes) (nick key : Bytes)
      → s.user ≡ some user
      → s.nick ≡ some nick
      → s.password ≡ none
      → (server.is_closed && not s.authorized) ≡ false
      → nick_lc nick ≡ done (true, key)
      → (irc : Irc T)
      → enter_channel h gl gc server q (entered p (client user s.host nick key) s.irc) ≡ done irc
      → irc_check_login h gl gc server p q s ≡ done (welcomed h gl gc server s irc plus_s)
  unfolding irc_check_login complete log_in try_password
  logged_in_by s p q user nick key given chosen no_password let_in lowered irc step =
      rw
        (
          given,
          chosen,
          let_in,
          enter_user_lem p user s.host nick key s.irc lowered,
          default_umode,
          step,
          no_password,
        )
        refl

  -- A client that has given its nick, in allowed characters, and its name is logged in, if the server
  -- is open or it has given the server's password, the users are consistent, its address is new,
  -- nobody else has the nick, and there is no control channel yet: it is then a user like the
  -- others, found by its nick, the users are consistent, it has the default mode, and it is in
  -- the control channel. It has sent no password for root, which would be tried afterwards.
  pub irc_check_login_lem :
      (s : Session T) (p q : ℕ) (user : Bytes × Bytes) (nick key : Bytes)
      → s.user ≡ some user
      → s.nick ≡ some nick
      → s.password ≡ none
      → (server.is_closed && not s.authorized) ≡ false
      → nick_lc nick ≡ done (true, key)
      → IsConsistent h gl gc s.irc
      → member s.irc.users p ≡ false
      → irc_user_by_name h gl gc s.irc nick ≡ done none
      → irc_channel_by_name s.irc.channels root_chan ≡ none
      → (t : Session T) × (irc_check_login h gl gc server p q s ≡ done t)
        × (t.logged_in ≡ true)
        × (t.umode ≡ codes "s")
        × IsConsistent h gl gc t.irc
        × (irc_user_by_name h gl gc t.irc nick ≡ done (some p))
        × (t.irc.user ≡ p)
        × IsInside h gl gc server root_chan p t.irc.channels
  unfolding welcomed insert
  irc_check_login_lem s p q user nick key given chosen no_password let_in lowered c new free
        no_channel =
      let iu = client user s.host nick key in
      let irc = entered p iu s.irc in
      let nobody : h.lookup s.irc.nick_user_hash key ≡ none =
        (let look = by_name_lookup h gl gc s.irc nick key lowered in ground arith) in
      let step = enter_channel_lem h gl gc server q irc no_channel in
      let t : Session T =
        welcomed h gl gc server s (record irc { channels = step.0; sent = step.1 }) plus_s in
      (
        t,
        logged_in_by s p q user nick key given chosen no_password let_in lowered
            (record irc { channels = step.0; sent = step.1 }) step.2,
        refl,
        refl,
        insert-IsConsistent h gl gc p iu s.irc c new nobody lowered,
        found_again t.irc s.irc.nick_user_hash p nick key lowered refl,
        refl,
        step.3,
      )
