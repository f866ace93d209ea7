-- ===== src/Irc/User/Order.antt =====
-- irc_user.c: the list of users in the order of their keys.
use bitl_steam.Common.{
  ℕ, ◌≡◌, ◌≢◌, refl, false, Option, List, [], ◌∷◌, ◌++◌, Bytes, ◌==◌, arith, Bool-cases, inl, inr,
  All,
}
use bitl_steam.Glib.Slist.{Slist, Head}
use bitl_steam.Glib.Members.{mem}
use bitl_steam.Nick.{Sign, minus, equal, plus, strcmp}
use bitl_steam.Nick.Compare.{flip, strcmp-flip}
use bitl_steam.Irc.User.{IrcUser, key_of, write, user_cmp}
use bitl_steam.Irc.User.Index.{member}

strcmp_le_trans : (a b c : Bytes) → strcmp a b ≢ plus → strcmp b c ≢ plus → strcmp a c ≢ plus
unfolding strcmp
strcmp_le_trans [] [] c h k = k
strcmp_le_trans [] (y ∷ b) [] h k = λ e. cc
strcmp_le_trans [] (y ∷ b) (z ∷ c) h k = λ e. cc
strcmp_le_trans (x ∷ a) [] c h k = absurd (h refl)
strcmp_le_trans (x ∷ a) (y ∷ b) [] h k = absurd (k refl)
strcmp_le_trans (x ∷ a) (y ∷ b) (z ∷ c) h k = let rest = strcmp_le_trans a b c in ground arith

not_minus : (s : Sign) → s ≢ minus → flip s ≢ plus
not_minus minus h = absurd (h refl)
not_minus equal h = λ e. cc
not_minus plus h = λ e. cc

-- `p` may stand in front of `q`.
abbrev pub Before : (ℕ → Bytes) → ℕ → ℕ → Type 0
Before key p q = strcmp (key p) (key q) ≢ plus

abbrev pub IsSorted : (ℕ → Bytes) → List ℕ → Type 0
IsSorted key [] = Unit
IsSorted key (p ∷ l) = All (Before key p) l × IsSorted key l

Before-Head :
    (key : ℕ → Bytes) (p : ℕ) (l : List ℕ)
    → IsSorted key l
    → Head (λ q. Before key p q) l
    → All (Before key p) l
Before-Head key p [] s h = tt
Before-Head key p (q ∷ l) (a, s) h = (h, tail l a)
  where
    tail : (l : List ℕ) → All (Before key q) l → All (Before key p) l
    tail [] a = tt
    tail (r ∷ l) (b, a) = (strcmp_le_trans (key p) (key q) (key r) h b, tail l a)

All-insert : (P : ℕ → Type 0) (l r : List ℕ) (p : ℕ) → All P (l ++ r) → P p → All P (l ++ p ∷ r)
All-insert P [] r p a h = (h, a)
All-insert P (q ∷ l) r p (b, a) h = (b, All-insert P l r p a h)

insert-IsSorted :
    (key : ℕ → Bytes) (pre post : List ℕ) (p : ℕ)
    → IsSorted key (pre ++ post)
    → All (λ q. strcmp (key p) (key q) ≢ minus) pre
    → Head (λ q. Before key p q) post
    → IsSorted key (pre ++ p ∷ post)
insert-IsSorted key [] post p s a b = (Before-Head key p post s b, s)
insert-IsSorted key (q ∷ pre) post p (first, s) (c, a) b = (
  All-insert (Before key q) pre post p first
      (rw (strcmp-flip (key p) (key q)) (not_minus (strcmp (key p) (key q)) c)),
  insert-IsSorted key pre post p s a b,
)

module _ (gl : Slist ℕ) where
  pub insert_sorted-IsSorted :
      (store : ℕ → Option IrcUser) (p : ℕ) (l : List ℕ)
      → IsSorted (λ q. key_of (store q)) l
      → IsSorted (λ q. key_of (store q)) (gl.insert_sorted (user_cmp store) p l)
  unfolding user_cmp
  insert_sorted-IsSorted store p l s =
      let (pre, post, old, new, before, behind) = gl.insert_sorted_lem (user_cmp store) p l in
      rw new (insert-IsSorted (λ q. key_of (store q)) pre post p (rw old at s) before behind)

  remove-All : (P : ℕ → Type 0) (l : List ℕ) (p : ℕ) → All P l → All P (gl.remove (λ q. q == p) l)
  remove-All P [] p a = rw (gl.remove_nil (λ q. q == p)) tt
  remove-All P (q ∷ l) p (b, a) =
      rw (gl.remove_cons (λ q. q == p) q l)
        (elim (Bool-cases (q == p)) [ inl e ↦ rw e a | inr e ↦ rw e (b, remove-All P l p a) ])

  pub remove-IsSorted :
      (key : ℕ → Bytes) (l : List ℕ) (p : ℕ)
      → IsSorted key l
      → IsSorted key (gl.remove (λ q. q == p) l)
  remove-IsSorted key [] p s = rw (gl.remove_nil (λ q. q == p)) tt
  remove-IsSorted key (q ∷ l) p (a, s) =
      rw (gl.remove_cons (λ q. q == p) q l) (elim (Bool-cases (q == p)) [
        | inl e ↦ rw e s
        | inr e ↦ rw e (remove-All (Before key q) l p a, remove-IsSorted key l p s)
      ])

-- A write elsewhere leaves the order alone.
All-Before-write :
    (store : ℕ → Option IrcUser) (p q : ℕ) (iu : Option IrcUser) (l : List ℕ)
    → member l p ≡ false
    → (p == q) ≡ false
    → All (Before (λ q. key_of (store q)) q) l
    → All (Before (λ q. key_of (write store p iu q)) q) l
unfolding write mem
All-Before-write store p q iu [] new ne a = tt
All-Before-write store p q iu (r ∷ l) new ne (b, a) =
    let other : (p == r) ≡ false = (ground arith) in
    (rw (ne, other) b, All-Before-write store p q iu l (ground arith) ne a)

pub write-IsSorted :
    (store : ℕ → Option IrcUser) (p : ℕ) (iu : Option IrcUser) (l : List ℕ)
    → member l p ≡ false
    → IsSorted (λ q. key_of (store q)) l
    → IsSorted (λ q. key_of (write store p iu q)) l
unfolding mem
write-IsSorted store p iu [] new s = tt
write-IsSorted store p iu (q ∷ l) new (a, s) = (
  All-Before-write store p q iu l (ground arith) (ground arith) a,
  write-IsSorted store p iu l (ground arith) s,
)
