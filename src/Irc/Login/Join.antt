-- ===== src/Irc/Login/Join.antt =====
-- irc.c: how a client enters the control channel.
use bitl_steam.Common.{
  ℕ, ◌≡◌, refl, ap, ◌∙◌, true, ◌||◌, none, some, List, [], ◌∷◌, ◌++◌, Bytes, ◌==◌, ==_refl, ==_iff,
  Bool-cases, inl, inr, ◌⊎◌, if_both,
}
use bitl_steam.Common.Outcome.{done}
use bitl_steam.Glib.{HashTable}
use bitl_steam.Glib.Slist.{Slist}
use bitl_steam.Irc.Channel.{
  Place, ChannelUser, Channel, Event, Done, has_user, irc_channel_has_user, irc_channel_add_user,
  enter, announce, irc_channel_update_ops, ◌then◌,
}
use bitl_steam.Irc.Channel.Members.{announce-users, has_user-insert_sorted}
use bitl_steam.Irc.Channel.View.{update_ops-Quiet}
use bitl_steam.Irc.Channels.{irc_channel_new, irc_channel_by_name, fresh_channel}
use bitl_steam.Irc.Channels.Find.{add_user-name, fresh_channel-name}
use bitl_steam.Irc.Name.{irc_channel_name_ok}
use bitl_steam.Irc.User.{Sent, Irc, place}
use bitl_steam.Irc.Login.{Server, root_chan, with_topic, auto_joins, in_channels, enter_channel}

module _ {T : Type 0} (h : HashTable T ℕ) (gl : Slist ℕ) (gc : Slist ChannelUser)
    (server : Server T) where
  add_user-has_user :
      (irc : Irc T) (ic : Channel) (iu : ℕ)
      → has_user (irc_channel_add_user gc (place h gl gc irc) ic iu).ic.users iu ≡ true
  unfolding irc_channel_add_user irc_channel_has_user ◌then◌ announce enter
  add_user-has_user irc ic iu = elim (Bool-cases (has_user ic.users iu)) [
    | inl e ↦ rw e e
    | inr e ↦ rw e (
        let at = place h gl gc irc in
        let inside = enter gc at ic iu in
        ap (λ l. has_user l iu) (announce-users at iu (irc_channel_update_ops at inside at.ops).ic)
        ∙ (update_ops-Quiet at inside at.ops).same iu
        ∙ has_user-insert_sorted gc _ (record { iu = iu; flags = 0 }) ic.users iu
        ∙ rw (==_refl iu) refl)
  ]

  add_user-self :
      (at : Place) (ic : Channel) (iu : ℕ) → (irc_channel_add_user gc at ic iu).ic.self ≡ ic.self
  unfolding irc_channel_add_user ◌then◌ announce
  add_user-self at ic iu =
      let d = irc_channel_update_ops at (enter gc at ic iu) at.ops in
      let q = update_ops-Quiet at (enter gc at ic iu) at.ops in
      let kept : d.ic.self ≡ ic.self = q.self ∙ (unfold enter in refl) in
      if_both (λ (d : Done). d.ic.self ≡ ic.self) (irc_channel_has_user ic iu) _ _ refl
        (if_both (λ (d : Done). d.ic.self ≡ ic.self) (iu == at.user || d.ic.joined) _ _ kept kept)

  -- The list has a channel at this address, with this name.
  abbrev HasChannel : ℕ → Bytes → List Channel → Type 0
  HasChannel q name [] = ⊥
  HasChannel q name (ic ∷ l) = ((ic.self ≡ q) × (ic.name ≡ name)) ⊎ HasChannel q name l

  -- The list has a channel with this name that the user is in.
  abbrev pub IsInside : Bytes → ℕ → List Channel → Type 0
  IsInside name p [] = ⊥
  IsInside name p (ic ∷ l) = ((ic.name ≡ name) × (has_user ic.users p ≡ true)) ⊎ IsInside name p l

  HasChannel-last :
      (q : ℕ) (name : Bytes) (l : List Channel) (ic : Channel)
      → ic.self ≡ q
      → ic.name ≡ name
      → HasChannel q name (l ++ ic ∷ [])
  HasChannel-last q name [] ic e n = inl (e, n)
  HasChannel-last q name (x ∷ l) ic e n = inr (HasChannel-last q name l ic e n)

  HasChannel-with_topic :
      (q : ℕ) (name : Bytes) (l : List Channel)
      → HasChannel q name l
      → HasChannel q name (with_topic q l)
  unfolding with_topic
  HasChannel-with_topic q name [] k = k
  HasChannel-with_topic q name (ic ∷ l) (inl k) =
      if_both (HasChannel q name) (ic.self == q) _ _ (inl k) (inl k)
  HasChannel-with_topic q name (ic ∷ l) (inr k) =
      if_both (HasChannel q name) (ic.self == q) _ _ (inr k)
        (inr (HasChannel-with_topic q name l k))

  auto_joins-IsInside :
      (irc : Irc T) (q : ℕ) (name : Bytes) (l : List Channel)
      → HasChannel q name l
      → IsInside name irc.user (auto_joins h gl gc server irc q l).0
  unfolding auto_joins
  auto_joins-IsInside irc q name [] k = k
  auto_joins-IsInside irc q name (ic ∷ l) (inl (e, n)) =
      let at = place h gl gc irc in
      let here : (ic.self == q) ≡ true = (==_iff ic.self q).1 e in
      rw here (inl (add_user-name gc at ic irc.user ∙ n, add_user-has_user irc ic irc.user))
  auto_joins-IsInside irc q name (ic ∷ l) (inr k) =
      if_both (λ (r : List Channel × List Event). IsInside name irc.user r.0)
        (ic.self == q || server.auto_join ic.self) _ _ (inr (auto_joins-IsInside irc q name l k))
        (inr (auto_joins-IsInside irc q name l k))

  new_channel :
      (at : Place) (q : ℕ) (l : List Channel)
      → irc_channel_by_name l root_chan ≡ none
      → irc_channel_new gc at q l root_chan ≡ some (l ++ fresh_channel gc at q root_chan ∷ [])
  unfolding irc_channel_new irc_channel_name_ok
  new_channel at q l free = rw free refl

  pub enter_channel_lem :
      (q : ℕ) (irc : Irc T)
      → irc_channel_by_name irc.channels root_chan ≡ none
      → (l : List Channel) × (sent : List Sent) × (enter_channel h gl gc server q irc
          ≡ done (record irc { channels = l; sent = sent }))
        × IsInside root_chan irc.user l
  unfolding enter_channel in_channels place
  enter_channel_lem q irc free =
      let at = place h gl gc irc in
      let ic = fresh_channel gc at q root_chan in
      let at_last =
        HasChannel-last q root_chan irc.channels ic
          (unfold fresh_channel in add_user-self at _ irc.root)
          (fresh_channel-name gc at q root_chan) in
      (
        _,
        _,
        ap (in_channels h gl gc server q irc) (new_channel at q irc.channels free),
        auto_joins-IsInside irc q root_chan (with_topic q (irc.channels ++ ic ∷ []))
            (HasChannel-with_topic q root_chan (irc.channels ++ ic ∷ []) at_last),
      )
