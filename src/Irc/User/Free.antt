-- ===== src/Irc/User/Free.antt =====
-- irc_user.c: `irc_user_free`.
use bitl_steam.Common.{
  ℕ, ◌≡◌, refl, ap, true, false, not, Option, none, some, List, Bytes, strcmp_eq, ◌==◌, ==_iff,
  ==_refl, if◌then◌else◌, arith, Bool-cases, inl, inr,
}
use bitl_steam.Common.Outcome.{done}
use bitl_steam.Glib.{HashTable}
use bitl_steam.Glib.Slist.{Slist}
use bitl_steam.Nick.{nick_lc}
use bitl_steam.Irc.Channel.{ChannelUser}
use bitl_steam.Irc.User.{
  IrcUser, Irc, Buddy, write, deref, remove_user, irc_user_by_name, irc_user_quit, set_msg, is_ic,
  free_user, irc_user_free,
}
use bitl_steam.Irc.User.Index.{member, remove_user-IsIndex}
use bitl_steam.Irc.User.Order.{write-IsSorted}
use bitl_steam.Irc.User.Users.{Consistent, IsConsistent, remove_user-IsConsistent, by_name_lookup}

module _ {T : Type 0} (h : HashTable T ℕ) (gl : Slist ℕ) (gc : Slist ChannelUser) where
  -- The message is all that is set.
  set_msg_keeps :
      (P : (ℕ → Option IrcUser) → List ℕ → T → Type 0) (bu : Option Buddy) (irc : Irc T)
      → P irc.store irc.users irc.nick_user_hash
      → P
          (set_msg h gl gc bu irc).store
          (set_msg h gl gc bu irc).users
          (set_msg h gl gc bu irc).nick_user_hash
  unfolding set_msg
  set_msg_keeps P none irc m = m
  set_msg_keeps P (some bu) irc m = elim (Bool-cases (not bu.logging_out)) [
    | inl e ↦ rw e m
    | inr e ↦ rw e (elim (Bool-cases (is_ic irc.last_ic bu.ic)) [ inl f ↦ rw f m | inr f ↦ rw f m ])
  ]

  -- Nothing but freed memory at an address that list and table do not know.
  write-IsConsistent :
      (irc : Irc T) (p : ℕ)
      → member irc.users p ≡ false
      → IsConsistent h gl gc irc
      → Consistent h gl gc (write irc.store p none) irc.users irc.nick_user_hash
  unfolding write
  write-IsConsistent irc p gone c = record {
    index = record {
      once = c.index.once;
      stored = λ q there. let old = c.index.stored q there in rw (other q there) old;
      found = λ k q. (
        λ e. let (there, key) = (c.index.found k q).0 e in (there, rw (other q there) key),
        λ r. (c.index.found k q).1 (r.0, rw (other q r.0) at r.1),
      );
    };
    sorted = write-IsSorted irc.store p none irc.users gone c.sorted;
    keyed = λ q there. rw (other q there) (c.keyed q there);
  }
    where
      other : (q : ℕ) → member irc.users q ≡ true → (p == q) ≡ false
      other q there =
          let same : p ≡ q → member irc.users p ≡ member irc.users q =
            λ e. ap (member irc.users) e in
          let is = ==_iff p q in ground arith

  -- A state from which the user is gone, next to the one before.
  Gone : ℕ → IrcUser → Irc T → (ℕ → Option IrcUser) → List ℕ → T → Type 0
  Gone p iu before store users t =
      Consistent h gl gc store users t
      × (member users p ≡ false)
      × (store p ≡ none)
      × ((k : Bytes)
          → h.lookup t k ≡ (if strcmp_eq iu.key k then none else h.lookup before.nick_user_hash k))

  remove-Gone :
      (p : ℕ) (iu : IrcUser) (irc : Irc T)
      → IsConsistent h gl gc irc
      → member irc.users p ≡ true
      → irc.store p ≡ some iu
      → Gone p iu irc
          (write irc.store p none)
          (gl.remove (λ q. q == p) irc.users)
          (h.remove irc.nick_user_hash iu.key)
  unfolding Gone
  remove-Gone p iu irc c is_in at =
      let removed = remove_user h gl gc p iu irc in
      let (index, gone, unlinked) = remove_user-IsIndex h gl gc p iu irc c.index at is_in in
      (
        unfold remove_user in
            write-IsConsistent removed p gone
              (remove_user-IsConsistent h gl gc p iu irc c at is_in),
        unfold remove_user in gone,
        unfold write in rw (==_refl p) refl,
        λ k. h.lookup-remove irc.nick_user_hash iu.key k,
      )

  free_user-Gone :
      (p : ℕ) (iu : IrcUser) (irc : Irc T)
      → IsConsistent h gl gc irc
      → member irc.users p ≡ true
      → irc.store p ≡ some iu
      → let after = free_user h gl gc p iu irc in
        Gone p iu irc after.store after.users after.nick_user_hash
  unfolding free_user remove_user irc_user_quit
  free_user-Gone p iu irc c is_in at =
      set_msg_keeps
        (λ store users t.
          Gone p iu irc (write store p none) (gl.remove (λ q. q == p) users) (h.remove t iu.key))
        iu.bu irc (remove-Gone p iu irc c is_in at)

  -- Freeing a user that exists succeeds: list and table stay in step, and the user is in neither and
  -- not found by its nick any more, while other nicks are found as before. Without a user it does nothing.
  pub irc_user_free_lem :
      (irc : Irc T) (p : ℕ) (iu : IrcUser)
      → IsConsistent h gl gc irc
      → member irc.users p ≡ true
      → irc.store p ≡ some iu
      → (irc_user_free h gl gc none irc ≡ done (false, irc))
        × ((after : Irc T) × (irc_user_free h gl gc (some p) irc ≡ done (true, after))
            × IsConsistent h gl gc after
            × (member after.users p ≡ false)
            × (after.store p ≡ none)
            × ((other k : Bytes)
                → nick_lc other ≡ done (true, k)
                → irc_user_by_name h gl gc after other
                  ≡ (if strcmp_eq iu.key k then done none else irc_user_by_name h gl gc irc other)))
  unfolding irc_user_free deref Gone
  irc_user_free_lem irc p iu c is_in at =
      let after = free_user h gl gc p iu irc in
      let (right, gone, empty, finds) = free_user-Gone p iu irc c is_in at in
      rw at (
        refl,
        (
          after,
          refl,
          right,
          gone,
          empty,
          λ other k e.
              rw
                (
                  by_name_lookup h gl gc after other k e,
                  by_name_lookup h gl gc irc other k e,
                  finds k,
                )
                (ground arith),
        ),
      )
