-- ===== src/Irc/User/Rename.antt =====
-- irc_user.c: `irc_user_set_nick`.
use bitl_steam.Common.{
  ℕ, ◌≡◌, refl, ap, ◌∙◌, true, false, Option, none, some, [], ◌∷◌, ◌++◌, Bytes, strcmp_eq,
  strcmp_eq_iff, ◌==◌, if◌then◌else◌, arith, Bool-cases, inl, inr,
}
use bitl_steam.Common.Outcome.{done}
use bitl_steam.Glib.{HashTable}
use bitl_steam.Glib.Slist.{Slist}
use bitl_steam.Nick.{nick_lc}
use bitl_steam.Irc.Channel.{ChannelUser}
use bitl_steam.Irc.User.{
  IrcUser, Irc, key_of, deref, insert, remove_user, irc_user_by_name, is_other, renamed, tell_nick,
  new_nick, tell_master, is_seen, set_nick_of, irc_user_set_nick,
}
use bitl_steam.Irc.User.Index.{member, remove_user-IsIndex}
use bitl_steam.Irc.User.Users.{
  IsConsistent, insert-IsConsistent, remove_user-IsConsistent, by_name_lookup,
}

module _ {T : Type 0} (h : HashTable T ℕ) (gl : Slist ℕ) (gc : Slist ChannelUser) where
  -- The change itself: out of list and table, and in again with the new nick.
  moved : ℕ → IrcUser → Bytes → Bytes → Irc T → Irc T
  moved p iu new key irc =
      insert h gl gc p (renamed h gl gc new key iu) (remove_user h gl gc p iu irc)

  vacated :
      (irc : Irc T) (p : ℕ) (iu : IrcUser) (key : Bytes) (found : Option ℕ)
      → IsConsistent h gl gc irc
      → irc.store p ≡ some iu
      → h.lookup irc.nick_user_hash key ≡ found
      → is_other h gl gc p found ≡ false
      → h.lookup (h.remove irc.nick_user_hash iu.key) key ≡ none
  unfolding is_other
  vacated irc p iu key none c at look free =
      rw (h.lookup-remove irc.nick_user_hash iu.key key, look) (ground arith)
  vacated irc p iu key (some q) c at look free =
      let (listed, same) = (c.index.found key q).0 look in
      let my_key : key_of (irc.store p) ≡ iu.key = ap key_of at in
      let keys : q ≡ p → key_of (irc.store q) ≡ key_of (irc.store p) =
        λ e. ap (λ p. key_of (irc.store p)) e in
      let same_key = strcmp_eq_iff iu.key key in
      h.lookup-remove irc.nick_user_hash iu.key key ∙ (ground arith)

  moved_lem :
      (irc : Irc T) (p : ℕ) (iu : IrcUser) (new key : Bytes) (found : Option ℕ)
      → IsConsistent h gl gc irc
      → member irc.users p ≡ true
      → irc.store p ≡ some iu
      → nick_lc new ≡ done (true, key)
      → h.lookup irc.nick_user_hash key ≡ found
      → is_other h gl gc p found ≡ false
      → IsConsistent h gl gc (moved p iu new key irc)
        × ((k : Bytes)
            → h.lookup (moved p iu new key irc).nick_user_hash k ≡ (
                if strcmp_eq key k
                then some p
                else if strcmp_eq iu.key k
                then none
                else h.lookup irc.nick_user_hash k))
  unfolding moved insert renamed remove_user
  moved_lem irc p iu new key found c is_in at lowered look free =
      let removed = remove_user h gl gc p iu irc in
      let (index, gone, unlinked) = remove_user-IsIndex h gl gc p iu irc c.index at is_in in
      let nobody : h.lookup removed.nick_user_hash key ≡ none =
        vacated irc p iu key found c at look free in
      (
        insert-IsConsistent h gl gc p (renamed h gl gc new key iu) removed
            (remove_user-IsConsistent h gl gc p iu irc c at is_in) gone nobody lowered,
        λ k.
            rw
              (
                h.lookup-replace (h.remove irc.nick_user_hash iu.key) key k p,
                h.lookup-remove irc.nick_user_hash iu.key k,
              )
              refl,
      )

  -- A consistent state with the user under the new key only.
  Moved : ℕ → IrcUser → Bytes → Irc T → Irc T → Type 0
  Moved p iu key irc after =
      IsConsistent h gl gc after
      × ((k : Bytes)
          → h.lookup after.nick_user_hash k ≡ (
              if strcmp_eq key k
              then some p
              else if strcmp_eq iu.key k
              then none
              else h.lookup irc.nick_user_hash k))

  tell_master-Moved :
      (p : ℕ) (iu : IrcUser) (new key : Bytes) (irc after : Irc T)
      → Moved p iu key irc after
      → Moved p iu key irc (tell_master h gl gc p new after)
  unfolding Moved tell_master
  tell_master-Moved p iu new key irc after m = elim (Bool-cases (p == after.user)) [
    | inl e ↦ rw e m
    | inr e ↦ rw e m
  ]

  set_nick_of-Moved :
      (irc : Irc T) (p : ℕ) (iu : IrcUser) (new key : Bytes) (found : Option ℕ)
      → IsConsistent h gl gc irc
      → member irc.users p ≡ true
      → irc.store p ≡ some iu
      → nick_lc new ≡ done (true, key)
      → h.lookup irc.nick_user_hash key ≡ found
      → is_other h gl gc p found ≡ false
      → Moved p iu key irc (set_nick_of h gl gc p iu new key irc)
  unfolding set_nick_of tell_nick moved
  set_nick_of-Moved irc p iu new key found c is_in at lowered look free =
      let told : Irc T = record irc { sent = irc.sent ++ new_nick p new ∷ [] } in
      elim (Bool-cases (is_seen h gl gc p irc.user irc.channels)) [
        | inl e ↦ rw e (
            tell_master-Moved p iu new key irc (moved p iu new key told)
              (unfold Moved in moved_lem told p iu new key found c is_in at lowered look free))
        | inr e ↦ rw e (
            tell_master-Moved p iu new key irc (moved p iu new key irc)
              (unfold Moved in moved_lem irc p iu new key found c is_in at lowered look free))
      ]

  -- A user that exists can be given each nick that nobody else has: list and table stay in step, it
  -- is found by the new nick and not by the old one, and other nicks are found as before. If
  -- somebody else has the nick, nothing changes.
  pub irc_user_set_nick_lem :
      (irc : Irc T) (p : ℕ) (iu : IrcUser) (new key : Bytes) (found : Option ℕ)
      → IsConsistent h gl gc irc
      → member irc.users p ≡ true
      → irc.store p ≡ some iu
      → nick_lc new ≡ done (true, key)
      → irc_user_by_name h gl gc irc new ≡ done found
      → (is_other h gl gc p found ≡ true → irc_user_set_nick h gl gc p new irc ≡ done (false, irc))
        × (is_other h gl gc p found ≡ false
            → (after : Irc T) × (irc_user_set_nick h gl gc p new irc ≡ done (true, after))
              × IsConsistent h gl gc after
              × ((other k : Bytes)
                  → nick_lc other ≡ done (true, k)
                  → irc_user_by_name h gl gc after other ≡ (
                      if strcmp_eq key k
                      then done (some p)
                      else if strcmp_eq iu.key k
                      then done none
                      else irc_user_by_name h gl gc irc other)))
  unfolding irc_user_set_nick deref Moved
  irc_user_set_nick_lem irc p iu new key found c is_in at lowered look =
      rw (at, lowered, look)
        (
          λ taken. rw taken refl,
          λ free. rw free (
              let look_key : h.lookup irc.nick_user_hash key ≡ found =
                (let l = by_name_lookup h gl gc irc new key lowered in ground arith) in
              let after = set_nick_of h gl gc p iu new key irc in
              let (right, finds) =
                set_nick_of-Moved irc p iu new key found c is_in at lowered look_key free in
              (
                after,
                refl,
                right,
                λ other k e.
                    rw
                      (
                        by_name_lookup h gl gc after other k e,
                        by_name_lookup h gl gc irc other k e,
                        finds k,
                      )
                      (ground arith),
              )),
        )
