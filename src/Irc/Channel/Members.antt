-- ===== src/Irc/Channel/Members.antt =====
-- irc_channel.c: the list of users of a channel as a set.
use bitl_steam.Common.{
  ℕ, ◌≡◌, refl, ◌∙◌, false, not, ◌&&◌, ◌||◌, List, [], ◌∷◌, ◌==◌, arith, Bool-cases, inl, inr,
}
use bitl_steam.Glib.Slist.{Slist}
use bitl_steam.Glib.Members.{Once, mem-insert_sorted, insert_sorted-Once, mem-remove, remove-Once}
use bitl_steam.Nick.{Sign}
use bitl_steam.Irc.Channel.{ChannelUser, Channel, Place, announce, has_user, set_flags}

-- No user is listed twice.
abbrev pub Distinct : List ChannelUser → Type 0
Distinct = Once (λ icu. icu.iu)

-- An announcement changes no list.
pub announce-users :
    (irc : Place) (iu : ℕ) (ic : Channel) → (announce irc iu ic).ic.users ≡ ic.users
unfolding announce
announce-users irc iu ic = ground arith

pub has_user-set_flags :
    (l : List ChannelUser) (iu flags u : ℕ) → has_user (set_flags l iu flags) u ≡ has_user l u
unfolding has_user set_flags
has_user-set_flags [] iu flags u = refl
has_user-set_flags (icu ∷ l) iu flags u = let rest = has_user-set_flags l iu flags u in ground arith

pub set_flags-Distinct :
    (l : List ChannelUser) (iu flags : ℕ) → Distinct l → Distinct (set_flags l iu flags)
unfolding set_flags has_user
set_flags-Distinct [] iu flags d = tt
set_flags-Distinct (icu ∷ l) iu flags (n, d) = elim (Bool-cases (icu.iu == iu)) [
  | inl e ↦ rw e (n, d)
  | inr e ↦ rw e (has_user-set_flags l iu flags icu.iu ∙ n, set_flags-Distinct l iu flags d)
]

module _ (gl : Slist ChannelUser) where
  pub has_user-insert_sorted :
      (cmp : ChannelUser → ChannelUser → Sign) (icu : ChannelUser) (l : List ChannelUser) (u : ℕ)
      → has_user (gl.insert_sorted cmp icu l) u ≡ (icu.iu == u || has_user l u)
  unfolding has_user
  has_user-insert_sorted = mem-insert_sorted (λ icu. icu.iu) gl

  pub insert_sorted-Distinct :
      (cmp : ChannelUser → ChannelUser → Sign) (icu : ChannelUser) (l : List ChannelUser)
      → has_user l icu.iu ≡ false
      → Distinct l
      → Distinct (gl.insert_sorted cmp icu l)
  unfolding has_user
  insert_sorted-Distinct = insert_sorted-Once (λ icu. icu.iu) gl

  pub has_user-remove :
      (l : List ChannelUser) (iu u : ℕ)
      → Distinct l
      → has_user (gl.remove (λ icu. icu.iu == iu) l) u ≡ (not (iu == u) && has_user l u)
  unfolding has_user
  has_user-remove = mem-remove (λ icu. icu.iu) gl

  pub remove-Distinct :
      (l : List ChannelUser) (iu : ℕ) → Distinct l → Distinct (gl.remove (λ icu. icu.iu == iu) l)
  remove-Distinct = remove-Once (λ icu. icu.iu) gl
