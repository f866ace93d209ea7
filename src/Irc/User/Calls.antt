-- ===== src/Irc/User/Calls.antt =====
-- irc_user.c: runs of calls that make, rename and free users.
use bitl_steam.Common.{
  ℕ, ◌≡◌, ◌↔◌, refl, ap, sym, ◌∙◌, true, false≢true, none, some, List, [], ◌∷◌, Bytes, Bool-cases,
  Option-cases, inl, inr,
}
use mathlib.Core.Path.{subst}
use bitl_steam.Common.Outcome.{Outcome, done, ◌>>=◌}
use bitl_steam.Glib.{HashTable}
use bitl_steam.Glib.Slist.{Slist}
use bitl_steam.Glib.Members.{mem}
use bitl_steam.Nick.{nick_lc}
use bitl_steam.Irc.Channel.{ChannelUser}
use bitl_steam.Irc.User.{
  IrcUser, Irc, key_of, irc_user_new, irc_user_by_name, irc_user_set_nick, irc_user_free, is_other,
}
use bitl_steam.Irc.User.Index.{member}
use bitl_steam.Irc.User.Users.{HasKey, IsConsistent, by_name_lookup, irc_user_new_lem}
use bitl_steam.Irc.User.Rename.{irc_user_set_nick_lem}
use bitl_steam.Irc.User.Free.{irc_user_free_lem}

-- The calls, with the user's address.
pub data Call : Type 0 where
  create : ℕ → Bytes → Call
  rename : ℕ → Bytes → Call
  release : ℕ → Call

module _ {T : Type 0} (h : HashTable T ℕ) (gl : Slist ℕ) (gc : Slist ChannelUser) where
  unfoldable pub perform : Call → Irc T → Outcome (Irc T)
  perform (create p nick) irc = irc_user_new h gl gc p nick irc
  perform (rename p nick) irc = irc_user_set_nick h gl gc p nick irc >>= λ r. done r.1
  perform (release p) irc = irc_user_free h gl gc (some p) irc >>= λ r. done r.1

  unfoldable pub perform_all : List Call → Irc T → Outcome (Irc T)
  perform_all [] irc = done irc
  perform_all (c ∷ l) irc = perform c irc >>= perform_all l

  -- A user is made at a new address, under a nick that nobody has; only users in the list are renamed
  -- and freed; nicks have allowed characters.
  abbrev pub IsLegal : Call → Irc T → Type 0
  IsLegal (create p nick) irc =
      (key : Bytes) × (nick_lc nick ≡ done (true, key))
      × (irc.store p ≡ none)
      × (irc_user_by_name h gl gc irc nick ≡ done none)
  IsLegal (rename p nick) irc =
      (key : Bytes) × (iu : IrcUser) × (nick_lc nick ≡ done (true, key))
      × (member irc.users p ≡ true)
      × (irc.store p ≡ some iu)
  IsLegal (release p) irc = (iu : IrcUser) × (member irc.users p ≡ true) × (irc.store p ≡ some iu)

  -- Each call is legal when it is made.
  abbrev pub AreLegal : List Call → Irc T → Type 0
  AreLegal [] irc = Unit
  AreLegal (c ∷ l) irc =
      IsLegal c irc × ((after : Irc T) → perform c irc ≡ done after → AreLegal l after)

  perform-IsConsistent :
      (c : Call) (irc : Irc T)
      → IsConsistent h gl gc irc
      → IsLegal c irc
      → (after : Irc T) × (perform c irc ≡ done after) × IsConsistent h gl gc after
  unfolding perform
  perform-IsConsistent (create p nick) irc c (key, lowered, fresh, free) =
      let (after, run, right, finds) =
        irc_user_new_lem h gl gc irc p nick key c fresh lowered free in
      (after, run, right)
  perform-IsConsistent (rename p nick) irc c (key, iu, lowered, is_in, at) =
      let found = h.lookup irc.nick_user_hash key in
      let (taken, changed) =
        irc_user_set_nick_lem h gl gc irc p iu nick key found c is_in at lowered
          (by_name_lookup h gl gc irc nick key lowered) in
      elim (Bool-cases (is_other h gl gc p found)) [
        | inl e ↦ (irc, rw (taken e) refl, c)
        | inr e ↦ (let (after, run, right, finds) = changed e in (after, rw run refl, right))
      ]
  perform-IsConsistent (release p) irc c (iu, is_in, at) =
      let (nobody, (after, run, right, gone, empty, finds)) =
        irc_user_free_lem h gl gc irc p iu c is_in at in
      (after, rw run refl, right)

  all-IsConsistent :
      (l : List Call) (irc : Irc T)
      → IsConsistent h gl gc irc
      → AreLegal l irc
      → (after : Irc T) × (perform_all l irc ≡ done after) × IsConsistent h gl gc after
  unfolding perform_all
  all-IsConsistent [] irc c legal = (irc, refl, c)
  all-IsConsistent (call ∷ l) irc c (legal, rest) =
      let (next, step, right) = perform-IsConsistent call irc c legal in
      let (after, run, good) = all-IsConsistent l next right (rest next step) in
      (after, rw step run, good)

  -- Nobody is there.
  abbrev pub without_users : T → Irc T → Irc T
  without_users t irc = record irc { store = λ p. none; users = []; nick_user_hash = t }

  without_users-IsConsistent :
      (t : T) (irc : Irc T)
      → ((k : Bytes) → h.lookup t k ≡ none)
      → IsConsistent h gl gc (without_users t irc)
  unfolding mem
  without_users-IsConsistent t irc empty = record {
    index = record {
      once = tt;
      stored = λ p e. absurd (false≢true e);
      found = λ k p. (λ e. (let e = sym (empty k) ∙ e in cc), λ (e, _). absurd (false≢true e));
    };
    sorted = tt;
    keyed = λ p e. absurd (false≢true e);
  }

  -- A user in the list, whose nick is this key in lower case.
  abbrev pub Has : Irc T → Bytes → ℕ → Type 0
  Has irc key p =
      (iu : IrcUser) × (member irc.users p ≡ true)
      × (irc.store p ≡ some iu)
      × (nick_lc iu.nick ≡ done (true, key))

  found-Has :
      (irc : Irc T) (key : Bytes) (p : ℕ)
      → IsConsistent h gl gc irc
      → (h.lookup irc.nick_user_hash key ≡ some p) ↔ Has irc key p
  found-Has irc key p c = (
    λ e.
        let (is_in, same) = (c.index.found key p).0 e in
        elim (Option-cases (irc.store p)) [
          | inl nothing ↦ absurd (c.index.stored p is_in nothing)
          | inr (iu, at) ↦
              let lowered : nick_lc iu.nick ≡ done (true, iu.key) =
                subst HasKey at (c.keyed p is_in) in
              let key_same : iu.key ≡ key = ap key_of (sym at) ∙ same in
              (iu, is_in, at, lowered ∙ ap (λ k. done (true, k)) key_same)
        ],
    λ (iu, is_in, at, lowered).
        let mine : nick_lc iu.nick ≡ done (true, iu.key) = subst HasKey at (c.keyed p is_in) in
        let key_same : iu.key ≡ key = (let e = sym mine ∙ lowered in cc) in
        (c.index.found key p).1 (is_in, ap key_of at ∙ key_same),
  )

  -- After any calls that make, rename and free users, from a state without users on: the calls end
  -- without undefined behaviour, and a user is found by a text of allowed characters exactly if it
  -- is in the list and the text is its nick up to case. Each call is legal when it is made: a user is
  -- made at a new address, under a nick of allowed characters that nobody has, a new nick has
  -- allowed characters, and only users in the list are renamed and freed.
  pub perform_all-Has :
      (t : T) (irc : Irc T) (l : List Call)
      → ((k : Bytes) → h.lookup t k ≡ none)
      → AreLegal l (without_users t irc)
      → (after : Irc T) × (perform_all l (without_users t irc) ≡ done after)
        × ((nick key : Bytes) (p : ℕ)
            → nick_lc nick ≡ done (true, key)
            → (irc_user_by_name h gl gc after nick ≡ done (some p)) ↔ Has after key p)
  perform_all-Has t irc l empty legal =
      let (after, run, c) =
        all-IsConsistent l (without_users t irc) (without_users-IsConsistent t irc empty) legal in
      (
        after,
        run,
        λ nick key p lowered.
            rw (by_name_lookup h gl gc after nick key lowered) (
              let (to, from) = found-Has after key p c in
              (λ e. to (cc), λ has. ap done (from has))),
      )
