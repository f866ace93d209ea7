-- ===== src/Irc/Channel/Calls.antt =====
-- irc_channel.c: joining and leaving, as the client sees it.
use bitl_steam.Common.{
  ℕ, ◌≡◌, ◌≢◌, refl, ap, sym, ◌∙◌, true, false, not, ◌&&◌, ◌||◌, List, [], ◌∷◌, Bytes, ◌==◌,
  if◌then◌else◌, arith, Bool-cases, ==_iff, ==_refl, if_both, inl, inr,
}
use bitl_steam.Glib.Slist.{Slist}
use bitl_steam.Irc.Channel.{
  ChannelUser, Channel, join, names, Place, Del, cdu_silent, cdu_part, cdu_kick, Done, has_user,
  irc_channel_has_user, ◌then◌, irc_channel_update_ops, irc_send_join, announce, channel_user_cmp,
  enter, irc_channel_add_user, leave, farewell, left, irc_channel_del_user,
}
use bitl_steam.Irc.Channel.Members.{
  Distinct, has_user-insert_sorted, insert_sorted-Distinct, has_user-remove, remove-Distinct,
}
use bitl_steam.Irc.Channel.View.{
  observe-topic_of, View, watch, observe, observe-append, IsChannel, Knows, Quiet, update_ops-Quiet,
}

-- A call after which a channel is as it should be, and the client knows it if it did before.
pub record Right (irc : Place) (v : View) (d : Done) : Type 0 where
  pub fine : IsChannel irc d.ic
  pub known : Knows (observe d.sent v) d.ic

-- The last step of joining: everyone but the new user was known.
announce-Right :
    (irc : Place) (iu : ℕ) (v : View) (ic : Channel)
    → Distinct ic.users
    → has_user ic.users iu ≡ true
    → ic.joined ≡ (not (iu == irc.user) && has_user ic.users irc.user)
    → (ic.joined ≡ true → (u : ℕ) → (iu == u || v ic.self u) ≡ has_user ic.users u)
    → Right irc v (announce irc iu ic)
unfolding announce irc_send_join
announce-Right irc iu v ic d in_it joined known = elim (Bool-cases (iu == irc.user)) [
  | inl own ↦ rw own (record {
    fine = record {
      distinct = d;
      joined_iff =
          (let same : has_user ic.users iu ≡ has_user ic.users irc.user =
              ap (has_user ic.users) ((==_iff iu irc.user).0 own) in
            sym (sym same ∙ in_it));
    };
    known = record {
      members = λ j u.
          unfold observe in
          unfold watch in
          rw
            (
              observe-topic_of ic.self ic.topic
                  (watch (names ic.self ic.users) (watch (join ic.self iu) v)),
              ==_refl ic.self,
            )
            refl;
    };
  })
  | inr other ↦ rw other (elim (Bool-cases ic.joined) [
    | inl is_in ↦ rw is_in (record {
      fine = record { distinct = d; joined_iff = (ground arith) };
      known = record {
        members = λ j u.
            unfold observe in
            unfold watch in (let k = known is_in u in rw (==_refl ic.self) (ground arith));
      };
    })
    | inr out ↦ rw out (record {
      fine = record { distinct = d; joined_iff = (ground arith) };
      known = record { members = λ j u. absurd (ground arith) };
    })
  ])
]

-- What a call told the client before, it still knows after a quiet one and a last one.
then-Right :
    (irc : Place) (v : View) (d : Done) (f : Channel → Done)
    → Right irc (observe d.sent v) (f d.ic)
    → Right irc v (d then f)
unfolding ◌then◌
then-Right irc v d f r = record {
  fine = r.fine;
  known = rw (observe-append d.sent (f d.ic).sent v) r.known;
}

pub same_Right :
    (irc : Place) (v : View) (ic : Channel)
    → IsChannel irc ic
    → Knows v ic
    → Right irc v (record { ic = ic; sent = [] })
unfolding observe
same_Right irc v ic c k = record { fine = c; known = k }

-- What is called on a channel.
pub data Call : Type 0 where
  add : ℕ → Call
  parts kicks : ℕ → Bytes → Call
  ops : Bytes → Call

module _ (gl : Slist ChannelUser) where
  -- Adding a user to a channel keeps the list without repetitions, the flag that says whether the
  -- client is in the channel, and what the client knows of the users in it, who joined or whose
  -- flags the setting "ops" changes.
  pub add_user-Right :
      (irc : Place) (v : View) (ic : Channel) (iu : ℕ)
      → IsChannel irc ic
      → Knows v ic
      → Right irc v (irc_channel_add_user gl irc ic iu)
  unfolding irc_channel_add_user irc_channel_has_user enter
  add_user-Right irc v ic iu c k = elim (Bool-cases (has_user ic.users iu)) [
    | inl e ↦ rw e (same_Right irc v ic c k)
    | inr e ↦ rw e (
        let entered = enter gl irc ic iu in
        let icu : ChannelUser = record { iu = iu; flags = 0 } in
        let d = irc_channel_update_ops irc entered irc.ops in
        let q = update_ops-Quiet irc entered irc.ops in
        let members : (u : ℕ) → has_user d.ic.users u ≡ (iu == u || has_user ic.users u) =
          λ u. q.same u ∙ has_user-insert_sorted gl (channel_user_cmp gl irc) icu ic.users u in
        let same : iu ≡ irc.user → has_user ic.users iu ≡ has_user ic.users irc.user =
          λ s. ap (has_user ic.users) s in
        then-Right irc v d (announce irc iu) (
          announce-Right irc iu (observe d.sent v) d.ic
            (q.distinct
              (insert_sorted-Distinct gl (channel_user_cmp gl irc) icu ic.users e c.distinct))
            (members iu ∙ (ground arith))
            (q.joined ∙ c.joined_iff ∙ (let m = members irc.user in ground arith))
            (λ j u. rw (q.silent v, q.self, members u, k.members (sym q.joined ∙ j) u) refl)))
  ]

  leave_members :
      (ic : Channel) (iu u : ℕ)
      → Distinct ic.users
      → has_user (leave gl ic iu).users u ≡ (not (iu == u) && has_user ic.users u)
  unfolding leave
  leave_members ic iu u d = has_user-remove gl ic.users iu u d

  pub left-Right :
      (irc : Place) (v : View) (ic : Channel)
      → irc.root ≢ irc.user
      → Distinct ic.users
      → ic.joined ≡ false
      → has_user ic.users irc.user ≡ false
      → Right irc v (left gl irc ic)
  unfolding left
  left-Right irc v ic ne d j h =
      let gone : IsChannel irc ic = record { distinct = d; joined_iff = j ∙ sym h } in
      let apart : Knows v ic = record { members = λ e u. absurd (ground arith) } in
      if_both (Right irc v) irc.shutdown _ _ (same_Right irc v ic gone apart) (
        if_both (Right irc v) ic.temp _ _
          (record { fine = gone; known = record { members = λ e u. absurd (ground arith) } })
          (add_user-Right irc v (record ic { users = [] }) irc.root
            (record { distinct = tt; joined_iff = unfold has_user in j })
            (record { members = λ e u. absurd (ground arith) })))

  -- The rest of a departure, for a client that already knows of it.
  pub gone-Right :
      (irc : Place) (v : View) (ic : Channel) (iu : ℕ)
      → irc.root ≢ irc.user
      → IsChannel irc ic
      → (ic.joined ≡ true → (u : ℕ) → v ic.self u ≡ (not (iu == u) && has_user ic.users u))
      → Right irc v (
          if iu == irc.user
          then left gl irc (record (leave gl ic iu) { joined = false })
          else record { ic = leave gl ic iu; sent = [] })
  unfolding leave
  gone-Right irc v ic iu ne c k =
      let d = remove-Distinct gl ic.users iu c.distinct in
      let members = λ (u : ℕ). has_user-remove gl ic.users iu u c.distinct in
      elim (Bool-cases (iu == irc.user)) [
        | inl own ↦ rw own (
            left-Right irc v (record (leave gl ic iu) { joined = false }) ne d refl
              (let m = members irc.user in ground arith))
        | inr other ↦ rw other (
            same_Right irc v (leave gl ic iu)
              (record {
                distinct = d;
                joined_iff = (let m = members irc.user in let j = c.joined_iff in ground arith);
              })
              (record { members = λ j u. k j u ∙ sym (members u) }))
      ]

  farewell_view :
      (v : View) (ic : Channel) (iu : ℕ) (type : Del) (msg : Bytes)
      → type ≢ cdu_silent
      → ic.joined ≡ true
      → (u : ℕ) → observe (farewell gl ic iu type msg) v ic.self u ≡ (not (iu == u) && v ic.self u)
  unfolding farewell
  farewell_view v ic iu cdu_silent msg ne j u = absurd (ne refl)
  farewell_view v ic iu cdu_part msg ne j u =
      rw j (unfold observe in unfold watch in rw (==_refl ic.self) (ground arith))
  farewell_view v ic iu cdu_kick msg ne j u =
      rw j (unfold observe in unfold watch in rw (==_refl ic.self) (ground arith))

  -- Removing a user by a PART or a KICK keeps the same: the list, the flag, and what the client
  -- knows. A client that leaves itself finds root alone in the channel.
  pub del_user-Right :
      (irc : Place) (v : View) (ic : Channel) (iu : ℕ) (type : Del) (msg : Bytes)
      → irc.root ≢ irc.user
      → type ≢ cdu_silent
      → IsChannel irc ic
      → Knows v ic
      → Right irc v (irc_channel_del_user gl irc ic iu type msg)
  unfolding irc_channel_del_user irc_channel_has_user
  del_user-Right irc v ic iu type msg ne loud c k = elim (Bool-cases (has_user ic.users iu)) [
    | inl e ↦ rw e (
        then-Right irc v (record { ic = leave gl ic iu; sent = farewell gl ic iu type msg }) _
          (gone-Right irc (observe (farewell gl ic iu type msg) v) ic iu ne c
            (λ j u. rw (farewell_view v ic iu type msg loud j u, k.members j u) refl)))
    | inr e ↦ rw e (same_Right irc v ic c k)
  ]

  Quiet-Right :
      (irc : Place) (v : View) (ic : Channel) (d : Done)
      → Quiet ic d
      → IsChannel irc ic
      → Knows v ic
      → Right irc v d
  Quiet-Right irc v ic d q c k = record {
    fine = record {
      distinct = q.distinct c.distinct;
      joined_iff = q.joined ∙ c.joined_iff ∙ sym (q.same irc.user);
    };
    known = record {
      members = λ j u. rw (q.silent v, q.self, q.same u) (k.members (sym q.joined ∙ j) u);
    };
  }

  unfoldable pub perform : Place → Channel → Call → Done
  perform irc ic (add iu) = irc_channel_add_user gl irc ic iu
  perform irc ic (parts iu msg) = irc_channel_del_user gl irc ic iu cdu_part msg
  perform irc ic (kicks iu msg) = irc_channel_del_user gl irc ic iu cdu_kick msg
  perform irc ic (ops value) = irc_channel_update_ops irc ic value

  unfoldable pub perform_all : Place → Channel → List Call → Done
  perform_all irc ic [] = record { ic = ic; sent = [] }
  perform_all irc ic (c ∷ l) = perform irc ic c then λ ic. perform_all irc ic l

  perform-Right :
      (irc : Place) (v : View) (ic : Channel) (c : Call)
      → irc.root ≢ irc.user
      → IsChannel irc ic
      → Knows v ic
      → Right irc v (perform irc ic c)
  unfolding perform
  perform-Right irc v ic (add iu) ne c k = add_user-Right irc v ic iu c k
  perform-Right irc v ic (parts iu msg) ne c k = del_user-Right irc v ic iu cdu_part msg ne (cc) c k
  perform-Right irc v ic (kicks iu msg) ne c k = del_user-Right irc v ic iu cdu_kick msg ne (cc) c k
  perform-Right irc v ic (ops value) ne c k =
      Quiet-Right irc v ic (irc_channel_update_ops irc ic value) (update_ops-Quiet irc ic value) c k

  -- Whatever is called on a channel, in whatever order: users who are added, parts and kicks, the
  -- client's own included, and changes of "ops". No user is listed twice, the channel is marked as
  -- joined exactly while the client is in it, and then what the client has put together from the
  -- messages is who is in it.
  pub perform_all-Right :
      (irc : Place) (v : View) (ic : Channel) (calls : List Call)
      → irc.root ≢ irc.user
      → IsChannel irc ic
      → Knows v ic
      → Right irc v (perform_all irc ic calls)
  unfolding perform_all
  perform_all-Right irc v ic [] ne c k = same_Right irc v ic c k
  perform_all-Right irc v ic (call ∷ calls) ne c k =
      let r = perform-Right irc v ic call ne c k in
      then-Right irc v (perform irc ic call) (λ ic. perform_all irc ic calls)
        (perform_all-Right irc (observe (perform irc ic call).sent v) (perform irc ic call).ic calls
          ne r.fine r.known)
