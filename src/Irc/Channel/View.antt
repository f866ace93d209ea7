-- ===== src/Irc/Channel/View.antt =====
-- irc_channel.c: what a client knows of a channel from the messages that it was sent.
use bitl_steam.Common.{
  ℕ, ◌≡◌, refl, ap, ◌∙◌, Bool, true, not, ◌&&◌, ◌||◌, Option, none, some, List, [], ◌∷◌, ◌++◌,
  Bytes, ◌==◌, if◌then◌else◌, codes, Bool-cases, inl, inr,
}
use bitl_steam.Irc.Channel.{
  Channel, Event, join, names, part, kick, mode, channel_mode, topic_line, topic_of, free_soon,
  Place, Done, find_user, has_user, mode_set, irc_channel_user_set_mode, ◌then◌,
  irc_channel_update_ops, says,
}
use bitl_steam.Irc.Channel.Members.{Distinct, has_user-set_flags, set_flags-Distinct}

-- Who is where, as far as a client knows.
abbrev pub View : Type 0
View = ℕ → ℕ → Bool

unfoldable pub watch : Event → View → View
watch (join c u) v = λ d w. (d == c && w == u) || v d w
watch (names c l) v = λ d w. if d == c then has_user l w else v d w
watch (part c u msg) v = λ d w. not (d == c && w == u) && v d w
watch (kick c u msg) v = λ d w. not (d == c && w == u) && v d w
watch (mode c u old new) v = v
watch (channel_mode c) v = v
watch (topic_line c s) v = v
watch (free_soon c) v = v

unfoldable pub observe : List Event → View → View
observe [] v = v
observe (e ∷ l) v = observe l (watch e v)

pub observe-append : (l r : List Event) (v : View) → observe (l ++ r) v ≡ observe r (observe l v)
unfolding observe
observe-append [] r v = refl
observe-append (e ∷ l) r v = observe-append l r (watch e v)

pub observe-topic_of : (c : ℕ) (t : Option Bytes) (v : View) → observe (topic_of c t) v ≡ v
unfolding observe watch topic_of
observe-topic_of c none v = refl
observe-topic_of c (some []) v = refl
observe-topic_of c (some (x ∷ s)) v = refl

-- No user is listed twice, and the channel is marked as joined exactly while the client's own user
-- is in it.
pub record IsChannel (irc : Place) (ic : Channel) : Type 0 where
  pub distinct : Distinct ic.users
  pub joined_iff : ic.joined ≡ has_user ic.users irc.user

-- Of a channel that it has joined, the client knows exactly who is in it.
pub record Knows (v : View) (ic : Channel) : Type 0 where
  pub members : ic.joined ≡ true → (u : ℕ) → v ic.self u ≡ has_user ic.users u

-- A call that neither changes who is in the channel nor tells the client anything about it.
pub record Quiet (ic : Channel) (d : Done) : Type 0 where
  pub self : d.ic.self ≡ ic.self
  pub name : d.ic.name ≡ ic.name
  pub joined : d.ic.joined ≡ ic.joined
  pub same : (u : ℕ) → has_user d.ic.users u ≡ has_user ic.users u
  pub distinct : Distinct ic.users → Distinct d.ic.users
  pub silent : (v : View) → observe d.sent v ≡ v

mode_set-Quiet :
    (ic : Channel) (iu flags : ℕ) (old : Option ℕ) → Quiet ic (mode_set ic iu flags old)
unfolding mode_set observe watch
mode_set-Quiet ic iu flags none = record {
  self = refl;
  name = refl;
  joined = refl;
  same = λ u. refl;
  distinct = λ d. d;
  silent = λ v. refl;
}
mode_set-Quiet ic iu flags (some old) = elim (Bool-cases (old == flags)) [
  | inl e ↦ rw e (record {
    self = refl;
    name = refl;
    joined = refl;
    same = λ u. refl;
    distinct = λ d. d;
    silent = λ v. refl;
  })
  | inr e ↦ rw e (record {
    self = refl;
    name = refl;
    joined = refl;
    same = has_user-set_flags ic.users iu flags;
    distinct = set_flags-Distinct ic.users iu flags;
    silent = λ v. elim (Bool-cases ic.joined) [ inl j ↦ rw j refl | inr j ↦ rw j refl ];
  })
]

then-Quiet :
    (ic : Channel) (d : Done) (f : Channel → Done)
    → Quiet ic d
    → Quiet d.ic (f d.ic)
    → Quiet ic (d then f)
unfolding ◌then◌
then-Quiet ic d f p q = record {
  self = q.self ∙ p.self;
  name = q.name ∙ p.name;
  joined = q.joined ∙ p.joined;
  same = λ u. q.same u ∙ p.same u;
  distinct = λ h. q.distinct (p.distinct h);
  silent = λ v.
      observe-append d.sent (f d.ic).sent v ∙ ap (observe (f d.ic).sent) (p.silent v) ∙ q.silent v;
}

pub user_set_mode-Quiet :
    (ic : Channel) (iu flags : ℕ) → Quiet ic (irc_channel_user_set_mode ic iu flags)
unfolding irc_channel_user_set_mode
user_set_mode-Quiet ic iu flags = mode_set-Quiet ic iu flags (find_user ic.users iu)

pub update_ops-Quiet :
    (irc : Place) (ic : Channel) (value : Bytes) → Quiet ic (irc_channel_update_ops irc ic value)
unfolding irc_channel_update_ops
update_ops-Quiet irc ic value =
    let for_user = λ (ic : Channel).
      irc_channel_user_set_mode ic irc.user (says value (codes "both") (codes "user")) in
    let d = irc_channel_user_set_mode ic irc.root (says value (codes "both") (codes "root")) in
    then-Quiet ic d for_user
      (user_set_mode-Quiet ic irc.root (says value (codes "both") (codes "root")))
      (user_set_mode-Quiet d.ic irc.user (says value (codes "both") (codes "user")))
