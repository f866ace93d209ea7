-- ===== src/Irc/User/Index.antt =====
-- irc_user.c: the list and the hash table of users agree.
use bitl_steam.Common.{
  ℕ, ◌≡◌, ◌≢◌, ◌↔◌, refl, ap, sym, ◌∙◌, Bool, true, false, ◌||◌, Option, none, some, List, Bytes,
  ◌==◌, strcmp_eq_iff, ==_iff, arith, Bool-cases, inl, inr,
}
use bitl_steam.Glib.{HashTable}
use bitl_steam.Glib.Slist.{Slist}
use bitl_steam.Glib.Members.{
  mem, Once, mem-insert_sorted, insert_sorted-Once, mem-remove, remove-Once,
}
use bitl_steam.Irc.Channel.{ChannelUser}
use bitl_steam.Irc.User.{IrcUser, Irc, key_of, write, user_cmp, insert, remove_user}

abbrev pub member : List ℕ → ℕ → Bool
member = mem (λ p. p)

module _ {T : Type 0} (h : HashTable T ℕ) (gl : Slist ℕ) (gc : Slist ChannelUser) where
  -- No user is listed twice, every listed user exists, and the table has exactly the listed users,
  -- by their keys.
  pub record Indexed (store : ℕ → Option IrcUser) (users : List ℕ) (t : T) : Type 0 where
    pub once : Once (λ p. p) users
    pub stored : (p : ℕ) → member users p ≡ true → store p ≢ none
    pub found :
        (k : Bytes) (p : ℕ)
        → (h.lookup t k ≡ some p) ↔ ((member users p ≡ true) × (key_of (store p) ≡ k))

  abbrev pub IsIndex : Irc T → Type 0
  IsIndex irc = Indexed irc.store irc.users irc.nick_user_hash

  pub insert-IsIndex :
      (p : ℕ) (iu : IrcUser) (irc : Irc T)
      → IsIndex irc
      → member irc.users p ≡ false
      → h.lookup irc.nick_user_hash iu.key ≡ none
      → IsIndex (insert h gl gc p iu irc)
  unfolding insert write
  insert-IsIndex p iu irc i new free =
      let store = write irc.store p (some iu) in
      let members : (q : ℕ)
          → member (gl.insert_sorted (user_cmp store) p irc.users) q
            ≡ (p == q || member irc.users q) =
        λ q. mem-insert_sorted (λ p. p) gl (user_cmp store) p irc.users q in
      record {
        once = insert_sorted-Once (λ p. p) gl (user_cmp store) p irc.users new i.once;
        stored = λ q is_in.
            let old = i.stored q in
            let m = members q in
            elim (Bool-cases (p == q)) [
              | inl e ↦ rw e (λ e. cc)
              | inr e ↦ rw e (old (ground arith))
            ];
        found = λ k q.
            rw (members q, h.lookup-replace irc.nick_user_hash iu.key k p)
              (let old = i.found k q in
                let free_k : iu.key ≡ k → h.lookup irc.nick_user_hash k ≡ none =
                  λ e. ap (h.lookup irc.nick_user_hash) (sym e) ∙ free in
                let same = strcmp_eq_iff iu.key k in
                let as_p : p ≡ q → member irc.users p ≡ member irc.users q =
                  λ e. ap (member irc.users) e in
                let is = ==_iff p q in
                elim (Bool-cases (p == q)) [
                  | inl e ↦ rw e (ground arith)
                  | inr e ↦ rw e (ground arith)
                ]);
      }

  pub remove_user-IsIndex :
      (p : ℕ) (iu : IrcUser) (irc : Irc T)
      → IsIndex irc
      → irc.store p ≡ some iu
      → member irc.users p ≡ true
      → IsIndex (remove_user h gl gc p iu irc)
        × (member (remove_user h gl gc p iu irc).users p ≡ false)
        × (h.lookup (remove_user h gl gc p iu irc).nick_user_hash iu.key ≡ none)
  unfolding remove_user
  remove_user-IsIndex p iu irc i at is_in =
      let members = λ (q : ℕ). mem-remove (λ p. p) gl irc.users p q i.once in
      let gone = λ (k : Bytes). h.lookup-remove irc.nick_user_hash iu.key k in
      (
        record {
          once = remove-Once (λ p. p) gl irc.users p i.once;
          stored = λ q there. let old = i.stored q in let m = members q in old (ground arith);
          found = λ k q.
              rw (members q, gone k)
                (let old = i.found k q in
                  let mine = i.found k p in
                  let my_key : key_of (irc.store p) ≡ iu.key = ap key_of at in
                  let same = strcmp_eq_iff iu.key k in
                  let keys : p ≡ q → key_of (irc.store p) ≡ key_of (irc.store q) =
                    λ e. ap (λ p. key_of (irc.store p)) e in
                  let is = ==_iff p q in ground arith);
        },
        (members p ∙ (ground arith)),
        (gone iu.key ∙ (let same = (strcmp_eq_iff iu.key iu.key).1 refl in ground arith)),
      )
