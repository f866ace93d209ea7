-- ===== src/Irc/User/Users.antt =====
-- irc_user.c: the users as a map from nicks, whatever their case.
use bitl_steam.Common.{
  ℕ, ◌≡◌, ◌↔◌, refl, true, false, ◌||◌, Option, none, some, List, Bytes, strcmp_eq, ◌==◌,
  if◌then◌else◌, arith, Bool-cases, inl, inr,
}
use bitl_steam.Common.Outcome.{done}
use bitl_steam.Glib.{HashTable}
use bitl_steam.Glib.Slist.{Slist}
use bitl_steam.Glib.Members.{mem-insert_sorted, mem-remove}
use bitl_steam.Nick.{nick_lc}
use bitl_steam.Irc.Channel.{ChannelUser}
use bitl_steam.Irc.User.{
  IrcUser, Irc, key_of, write, user_cmp, insert, remove_user, the_nick, irc_user_new,
  irc_user_by_name,
}
use bitl_steam.Irc.User.Index.{member, Indexed, insert-IsIndex, remove_user-IsIndex}
use bitl_steam.Irc.User.Order.{IsSorted, insert_sorted-IsSorted, remove-IsSorted, write-IsSorted}

-- The key is the nick in lower case.
abbrev pub HasKey : Option IrcUser → Type 0
HasKey none = Unit
HasKey (some iu) = nick_lc iu.nick ≡ done (true, iu.key)

module _ {T : Type 0} (h : HashTable T ℕ) (gl : Slist ℕ) (gc : Slist ChannelUser) where
  -- The list and the hash table agree, the list is in order, and the keys are the nicks in lower case.
  pub record Consistent (store : ℕ → Option IrcUser) (users : List ℕ) (t : T) : Type 0 where
    pub index : Indexed h gl gc store users t
    pub sorted : IsSorted (λ p. key_of (store p)) users
    pub keyed : (p : ℕ) → member users p ≡ true → HasKey (store p)

  abbrev pub IsConsistent : Irc T → Type 0
  IsConsistent irc = Consistent irc.store irc.users irc.nick_user_hash

  pub insert-IsConsistent :
      (p : ℕ) (iu : IrcUser) (irc : Irc T)
      → IsConsistent irc
      → member irc.users p ≡ false
      → h.lookup irc.nick_user_hash iu.key ≡ none
      → nick_lc iu.nick ≡ done (true, iu.key)
      → IsConsistent (insert h gl gc p iu irc)
  unfolding insert write
  insert-IsConsistent p iu irc c new free lowered =
      let store = write irc.store p (some iu) in
      record {
        index = insert-IsIndex h gl gc p iu irc c.index new free;
        sorted =
            insert_sorted-IsSorted gl store p irc.users
              (write-IsSorted irc.store p (some iu) irc.users new c.sorted);
        keyed = λ q is_in.
            let m : member (gl.insert_sorted (user_cmp store) p irc.users) q
                ≡ (p == q || member irc.users q) =
              mem-insert_sorted (λ p. p) gl (user_cmp store) p irc.users q in
            let old = c.keyed q in
            elim (Bool-cases (p == q)) [
              | inl same ↦ rw same lowered
              | inr other ↦ rw other (old (ground arith))
            ];
      }

  pub remove_user-IsConsistent :
      (p : ℕ) (iu : IrcUser) (irc : Irc T)
      → IsConsistent irc
      → irc.store p ≡ some iu
      → member irc.users p ≡ true
      → IsConsistent (remove_user h gl gc p iu irc)
  unfolding remove_user
  remove_user-IsConsistent p iu irc c at is_in = record {
    index = (remove_user-IsIndex h gl gc p iu irc c.index at is_in).0;
    sorted = remove-IsSorted gl (λ p. key_of (irc.store p)) irc.users p c.sorted;
    keyed = λ q there.
        c.keyed q (let m = mem-remove (λ p. p) gl irc.users p q c.index.once in ground arith);
  }

  -- The table is all that a search reads.
  pub by_name_lookup :
      (irc : Irc T) (nick key : Bytes)
      → nick_lc nick ≡ done (true, key)
      → irc_user_by_name h gl gc irc nick ≡ done (h.lookup irc.nick_user_hash key)
  unfolding irc_user_by_name
  by_name_lookup irc nick key lowered = rw lowered refl

  not_member :
      (irc : Irc T) (p : ℕ) → IsConsistent irc → irc.store p ≡ none → member irc.users p ≡ false
  not_member irc p c fresh = let s = c.index.stored p in ground arith

  -- A user is found by each text that is its nick up to case, and nobody else is.
  pub irc_user_by_name_iff :
      (irc : Irc T) (nick key : Bytes) (p : ℕ)
      → IsConsistent irc
      → nick_lc nick ≡ done (true, key)
      → (irc_user_by_name h gl gc irc nick ≡ done (some p))
        ↔ ((member irc.users p ≡ true) × (key_of (irc.store p) ≡ key))
  unfolding irc_user_by_name
  irc_user_by_name_iff irc nick key p c lowered =
      rw lowered (let f = c.index.found key p in ground arith)

  -- A new user with a nick that nobody has keeps list and table in step, and is then found by that
  -- nick in any case. Other nicks are found as before.
  pub irc_user_new_lem :
      (irc : Irc T) (p : ℕ) (nick key : Bytes)
      → IsConsistent irc
      → irc.store p ≡ none
      → nick_lc nick ≡ done (true, key)
      → irc_user_by_name h gl gc irc nick ≡ done none
      → (after : Irc T) × (irc_user_new h gl gc p nick irc ≡ done after)
        × IsConsistent after
        × ((other k : Bytes)
            → nick_lc other ≡ done (true, k)
            → irc_user_by_name h gl gc after other
              ≡ (if strcmp_eq key k then done (some p) else irc_user_by_name h gl gc irc other))
  unfolding irc_user_new
  irc_user_new_lem irc p nick key c fresh lowered free =
      let iu : IrcUser = record {
        nick = nick;
        user = the_nick;
        host = the_nick;
        fullname = the_nick;
        key = key;
        bu = none;
      } in
      let nobody : h.lookup irc.nick_user_hash key ≡ none =
        (let look = by_name_lookup irc nick key lowered in ground arith) in
      rw lowered (
        insert h gl gc p iu irc,
        refl,
        insert-IsConsistent p iu irc c (not_member irc p c fresh) nobody lowered,
        λ other k e.
            rw (by_name_lookup (insert h gl gc p iu irc) other k e, by_name_lookup irc other k e)
              (unfold insert in rw (h.lookup-replace irc.nick_user_hash key k p) (ground arith)),
      )
