-- ===== src/Irc/User/Quit.antt =====
-- irc_user.c: `irc_user_quit`, as the client sees it.
use bitl_steam.Common.{
  ℕ, ◌≡◌, ◌≢◌, refl, ap, sym, ◌∙◌, Bool, true, false, false≢true, not, ◌&&◌, List, [], ◌∷◌, ◌++◌,
  Bytes, map, ◌==◌, ==_iff, ==_refl, ◌||◌, if◌then◌else◌, if_both, append-nil, arith, Bool-cases,
  inl, inr, All,
}
use bitl_steam.Glib.{HashTable}
use bitl_steam.Glib.Slist.{Slist}
use bitl_steam.Irc.Channel.{
  ChannelUser, Channel, Event, Place, Done, cdu_silent, has_user, irc_channel_has_user,
  irc_channel_add_user, enter, ◌then◌, irc_channel_update_ops, announce, leave, left, farewell,
  irc_channel_del_user,
}
use bitl_steam.Irc.Channel.Members.{announce-users, has_user-insert_sorted, has_user-remove}
use bitl_steam.Irc.Channel.View.{
  View, watch, observe, observe-append, IsChannel, Knows, update_ops-Quiet,
}
use bitl_steam.Irc.Channel.Calls.{gone-Right}
use bitl_steam.Irc.User.{
  Irc, Sent, in_channel, new_nick, quit, to_master, place, quit_all, irc_user_quit,
}

-- A client that reads everything. A user who quits is nowhere any more.
unfoldable pub watch_sent : Sent → View → View
watch_sent (in_channel e) v = watch e v
watch_sent (new_nick p s) v = v
watch_sent (quit p s) v = λ c u. not (p == u) && v c u
watch_sent (to_master s) v = v

unfoldable pub observe_sent : List Sent → View → View
observe_sent [] v = v
observe_sent (e ∷ l) v = observe_sent l (watch_sent e v)

observe_sent-append :
    (l r : List Sent) (v : View) → observe_sent (l ++ r) v ≡ observe_sent r (observe_sent l v)
unfolding observe_sent
observe_sent-append [] r v = refl
observe_sent-append (e ∷ l) r v = observe_sent-append l r (watch_sent e v)

observe_sent-map : (l : List Event) (v : View) → observe_sent (map in_channel l) v ≡ observe l v
unfolding observe_sent watch_sent observe
observe_sent-map [] v = refl
observe_sent-map (e ∷ l) v = observe_sent-map l (watch e v)

module _ (gc : Slist ChannelUser) where
  -- A user who is not the one that is added is in the channel if it was.
  add_user-other :
      (at : Place) (ic : Channel) (q p : ℕ)
      → (q == p) ≡ false
      → has_user (irc_channel_add_user gc at ic q).ic.users p ≡ has_user ic.users p
  unfolding irc_channel_add_user irc_channel_has_user ◌then◌ enter
  add_user-other at ic q p other = elim (Bool-cases (has_user ic.users q)) [
    | inl e ↦ rw e refl
    | inr e ↦ rw e (
        let inside = enter gc at ic q in
        ap (λ l. has_user l p) (announce-users at q (irc_channel_update_ops at inside at.ops).ic)
        ∙ (update_ops-Quiet at inside at.ops).same p
        ∙ has_user-insert_sorted gc _ (record { iu = q; flags = 0 }) ic.users p
        ∙ rw other refl)
  ]

  left-gone :
      (at : Place) (ic : Channel) (p : ℕ)
      → (at.root == p) ≡ false
      → has_user ic.users p ≡ false
      → has_user (left gc at ic).ic.users p ≡ false
  unfolding left has_user
  left-gone at ic p other gone =
      if_both (λ (d : Done). has_user d.ic.users p ≡ false) at.shutdown _ _ gone
        (if_both (λ (d : Done). has_user d.ic.users p ≡ false) ic.temp _ _ gone
          (add_user-other at (record ic { users = [] }) at.root p other))

  -- Whoever leaves a channel is not in it afterwards.
  silent_del-gone :
      (at : Place) (ic : Channel) (p : ℕ)
      → at.root ≢ at.user
      → IsChannel at ic
      → has_user (irc_channel_del_user gc at ic p cdu_silent []).ic.users p ≡ false
  unfolding irc_channel_del_user irc_channel_has_user ◌then◌ leave
  silent_del-gone at ic p ne c =
      let gone : has_user (gc.remove (λ icu. icu.iu == p) ic.users) p ≡ false =
        has_user-remove gc ic.users p p c.distinct ∙ rw (==_refl p) refl in
      elim (Bool-cases (has_user ic.users p)) [
        | inl e ↦ rw e (elim (Bool-cases (p == at.user)) [
          | inl own ↦ rw own (
              left-gone at (record (leave gc ic p) { joined = false }) p
                (let same = ==_iff p at.user in let is = ==_iff at.root p in ground arith) gone)
          | inr other ↦ rw other gone
        ])
        | inr e ↦ rw e e
      ]

  -- Of somebody else the channel says nothing, and the client stays where it was.
  silent_del-silent :
      (at : Place) (ic : Channel) (p : ℕ)
      → (p == at.user) ≡ false
      → ((irc_channel_del_user gc at ic p cdu_silent []).sent ≡ [])
        × ((irc_channel_del_user gc at ic p cdu_silent []).ic.joined ≡ ic.joined)
  unfolding irc_channel_del_user irc_channel_has_user ◌then◌ farewell leave
  silent_del-silent at ic p other = elim (Bool-cases (has_user ic.users p)) [
    | inl e ↦ rw (e, other) (refl, refl)
    | inr e ↦ rw e (refl, refl)
  ]

  -- A call that leaves the client outside of the channel, and of which it hears nothing.
  Unseen : Done → Type 0
  Unseen d = (d.ic.joined ≡ false) × ((v : View) → observe d.sent v ≡ v)

  -- Of somebody who enters a channel that it is not in, the client hears nothing.
  add_user-Unseen :
      (at : Place) (ic : Channel) (p : ℕ)
      → p ≢ at.user
      → ic.joined ≡ false
      → Unseen (irc_channel_add_user gc at ic p)
  unfolding irc_channel_add_user Unseen
  add_user-Unseen at ic p ne out = elim (Bool-cases (irc_channel_has_user ic p)) [
    | inl e ↦ rw e (out, λ v. unfold observe in refl)
    | inr e ↦ rw e (
        let q = update_ops-Quiet at (enter gc at ic p) at.ops in
        let still : (irc_channel_update_ops at (enter gc at ic p) at.ops).ic.joined ≡ false =
          q.joined ∙ (unfold enter in out) in
        let other : (p == at.user) ≡ false = ground arith in
        unfold ◌then◌ in
        unfold announce in
        rw (other, still, append-nil (irc_channel_update_ops at (enter gc at ic p) at.ops).sent)
          (still, q.silent))
  ]

  left-Unseen :
      (at : Place) (ic : Channel) → at.root ≢ at.user → ic.joined ≡ false → Unseen (left gc at ic)
  unfolding left Unseen observe watch
  left-Unseen at ic ne out =
      if_both Unseen at.shutdown _ _ (out, λ v. refl)
        (if_both Unseen ic.temp _ _ (out, λ v. refl)
          (add_user-Unseen at (record ic { users = [] }) at.root ne out))

  -- The view of a client that hears of a QUIT or not.
  abbrev pub after_quit : ℕ → Bool → View → View
  after_quit p told v = if told then (λ c u. not (p == u) && v c u) else v

  -- A channel as it should be after a call that sends nothing, known to a client with this view.
  pub record Settled (at : Place) (v : View) (d : Done) : Type 0 where
    pub fine : IsChannel at d.ic
    pub known : Knows v d.ic
    pub silent : (w : View) → observe d.sent w ≡ w

  stranger_Settled :
      (at : Place) (v : View) (ic : Channel) (p : ℕ) (told : Bool)
      → IsChannel at ic
      → Knows v ic
      → has_user ic.users p ≡ false
      → Settled at (after_quit p told v) (record { ic = ic; sent = [] })
  unfolding observe
  stranger_Settled at v ic p told c k e = record {
    fine = c;
    known = record {
      members = λ j u.
          let m = k.members j u in
          let same : p ≡ u → has_user ic.users p ≡ has_user ic.users u =
            λ s. ap (has_user ic.users) s in
          let is = ==_iff p u in
          elim (Bool-cases told) [ inl t ↦ rw t (ground arith) | inr t ↦ rw t m ];
    };
    silent = λ w. refl;
  }

  own_Settled :
      (at : Place) (v : View) (ic : Channel) (p : ℕ)
      → at.root ≢ at.user
      → IsChannel at ic
      → (p == at.user) ≡ true
      → Settled at v (left gc at (record (leave gc ic p) { joined = false }))
  unfolding Unseen
  own_Settled at v ic p ne c own =
      let r =
        rw own at
          (gone-Right gc at (λ c u. not (p == u) && has_user ic.users u) ic p ne c (λ j u. refl)) in
      let (out, silent) = left-Unseen at (record (leave gc ic p) { joined = false }) ne refl in
      record {
        fine = r.fine;
        known = record { members = λ j u. absurd (false≢true (sym out ∙ j)) };
        silent = silent;
      }

  other_Settled :
      (at : Place) (v : View) (ic : Channel) (p : ℕ) (told : Bool)
      → at.root ≢ at.user
      → IsChannel at ic
      → Knows v ic
      → (p == at.user) ≡ false
      → (ic.joined ≡ true → told ≡ true)
      → Settled at (after_quit p told v) (record { ic = leave gc ic p; sent = [] })
  unfolding leave observe
  other_Settled at v ic p told ne c k other seen =
      let r =
        rw other at
          (gone-Right gc at (λ c u. not (p == u) && has_user ic.users u) ic p ne c (λ j u. refl)) in
      record {
        fine = r.fine;
        known = record {
          members = λ j u. (let m = k.members j u in rw (seen j, m) (r.known.members j u));
        };
        silent = λ w. refl;
      }

  -- Quietly out of one channel. The client is told if it saw the user there.
  pub silent_del-Settled :
      (at : Place) (v : View) (ic : Channel) (p : ℕ) (told : Bool)
      → at.root ≢ at.user
      → IsChannel at ic
      → Knows v ic
      → ((irc_channel_has_user ic p && (irc_channel_del_user gc at ic p cdu_silent []).ic.joined)
            ≡ true
          → told ≡ true)
      → Settled at (after_quit p told v) (irc_channel_del_user gc at ic p cdu_silent [])
  unfolding irc_channel_del_user irc_channel_has_user ◌then◌ farewell leave
  silent_del-Settled at v ic p told ne c k seen = elim (Bool-cases (has_user ic.users p)) [
    | inl e ↦ rw e (elim (Bool-cases (p == at.user)) [
      | inl own ↦ rw own (own_Settled at (after_quit p told v) ic p ne c own)
      | inr other ↦ rw other (
          other_Settled at v ic p told ne c k other
            (λ j. (let seen = rw (e, other) at seen in seen j)))
    ])
    | inr e ↦ rw e (stranger_Settled at v ic p told c k e)
  ]

module _ {T : Type 0} (h : HashTable T ℕ) (gl : Slist ℕ) (gc : Slist ChannelUser) where
  last_view :
      (p : ℕ) (msg : Bytes) (told : Bool) (v : View)
      → observe_sent (if told then quit p msg ∷ [] else []) v ≡ after_quit gc p told v
  unfolding observe_sent watch_sent
  last_view p msg true v = refl
  last_view p msg false v = refl

  quit_all_lem :
      (at : Place) (v : View) (p : ℕ) (told : Bool) (l : List Channel)
      → at.root ≢ at.user
      → All (IsChannel at) l
      → All (Knows v) l
      → ((quit_all h gl gc at p l).2 ≡ true → told ≡ true)
      → let q = quit_all h gl gc at p l in
        All (IsChannel at) q.0
        × All (Knows (after_quit gc p told v)) q.0
        × ((w : View) → observe q.1 w ≡ w)
  unfolding quit_all
  quit_all_lem at v p told [] ne c k seen = (tt, tt, λ w. unfold observe in refl)
  quit_all_lem at v p told (ic ∷ l) ne (c, cs) (k, ks) seen =
      let d = irc_channel_del_user gc at ic p cdu_silent [] in
      let s = silent_del-Settled gc at v ic p told ne c k (λ e. seen (rw e refl)) in
      let (fine, known, silent) = quit_all_lem at v p told l ne cs ks (λ e. seen (ground arith)) in
      (
        (s.fine, fine),
        (s.known, known),
        λ w. rw (observe-append d.sent (quit_all h gl gc at p l).1 w, s.silent w) (silent w),
      )

  quit_all-gone :
      (at : Place) (p : ℕ) (l : List Channel)
      → at.root ≢ at.user
      → All (IsChannel at) l
      → All (λ ic. has_user ic.users p ≡ false) (quit_all h gl gc at p l).0
  unfolding quit_all
  quit_all-gone at p [] ne c = tt
  quit_all-gone at p (ic ∷ l) ne (c, cs) =
      (silent_del-gone gc at ic p ne c, quit_all-gone at p l ne cs)

  -- The client sees the user in a channel that it has joined.
  abbrev pub is_seen_by_client : ℕ → List Channel → Bool
  is_seen_by_client p [] = false
  is_seen_by_client p (ic ∷ l) = (has_user ic.users p && ic.joined) || is_seen_by_client p l

  quit_all-silent :
      (at : Place) (p : ℕ) (l : List Channel)
      → (p == at.user) ≡ false
      → ((quit_all h gl gc at p l).1 ≡ []) × ((quit_all h gl gc at p l).2 ≡ is_seen_by_client p l)
  unfolding quit_all irc_channel_has_user
  quit_all-silent at p [] other = (refl, refl)
  quit_all-silent at p (ic ∷ l) other =
      let (nothing, stays) = silent_del-silent gc at ic p other in
      let (rest, seen) = quit_all-silent at p l other in
      (rw (nothing, rest) refl, rw (stays, seen) refl)

  quit_sent :
      (irc : Irc T) (p : ℕ) (msg : Bytes)
      → (p == irc.user) ≡ false
      → (irc_user_quit h gl gc p msg irc).sent
        ≡ irc.sent ++ (if is_seen_by_client p irc.channels then quit p msg ∷ [] else [])
  unfolding irc_user_quit
  quit_sent irc p msg other =
      let (nothing, seen) =
        quit_all-silent (place h gl gc irc) p irc.channels (unfold place in other) in
      rw (nothing, seen, append-nil irc.sent) refl

  -- A user who quits is out of all channels. The client, if it is another user, is told once if it saw
  -- the user in a channel that it has joined, and not at all if not. It knows of every channel that
  -- it has joined who is still there, and the channels are well formed.
  pub irc_user_quit_lem :
      (irc : Irc T) (v : View) (p : ℕ) (msg : Bytes)
      → irc.root ≢ irc.user
      → All (IsChannel (place h gl gc irc)) irc.channels
      → All (Knows (observe_sent irc.sent v)) irc.channels
      → let after = irc_user_quit h gl gc p msg irc in
        All (λ ic. has_user ic.users p ≡ false) after.channels
        × ((p == irc.user) ≡ false
            → after.sent
              ≡ irc.sent ++ (if is_seen_by_client p irc.channels then quit p msg ∷ [] else []))
        × All (IsChannel (place h gl gc after)) after.channels
        × All (Knows (observe_sent after.sent v)) after.channels
  unfolding irc_user_quit place
  irc_user_quit_lem irc v p msg ne c k =
      let at = place h gl gc irc in
      let q = quit_all h gl gc at p irc.channels in
      let (fine, known, silent) =
        quit_all_lem at (observe_sent irc.sent v) p q.2 irc.channels ne c k (λ e. e) in
      let events = map in_channel q.1 in
      let last = if q.2 then quit p msg ∷ [] else [] in
      (
        quit_all-gone at p irc.channels ne c,
        quit_sent irc p msg,
        fine,
        rw
            (
              observe_sent-append (irc.sent ++ events) last v,
              observe_sent-append irc.sent events v,
              observe_sent-map q.1 (observe_sent irc.sent v),
              silent (observe_sent irc.sent v),
              last_view p msg q.2 (observe_sent irc.sent v),
            )
            known,
      )
