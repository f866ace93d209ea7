-- ===== src/Irc/Channels/Find.antt =====
-- irc_channel.c: names are unique.
use bitl_steam.Common.{
  ℕ, ◌≡◌, ◌≢◌, ◌↔◌, refl, ap, sym, ◌∙◌, true, false, false≢true, ◌||◌, none, some, List, [], ◌∷◌,
  ◌++◌, Bytes, map, ◌==◌, All, All-append, InString, Bool-cases, if_both, inl, inr, ◌⊎◌,
  Option-cases,
}
use mathlib.Core.Path.{subst}
use bitl_steam.Glib.Slist.{Slist}
use bitl_steam.Nick.{Sign, minus, equal, plus}
use bitl_steam.Irc.Name.{irc_channel_name_ok, irc_channel_name_cmp, case_map}
use bitl_steam.Irc.Name.Laws.{irc_channel_name_cmp_lem}
use bitl_steam.Irc.Channel.{
  ChannelUser, Channel, Done, Place, irc_channel_has_user, irc_channel_update_ops, ◌then◌, announce,
  enter, irc_channel_add_user,
}
use bitl_steam.Irc.Channel.View.{update_ops-Quiet}
use bitl_steam.Irc.Channels.{is_equal, irc_channel_by_name, fresh_channel, irc_channel_new}

-- A channel of the list has a name that is accepted.
abbrev pub IsNamed : Channel → Type 0
IsNamed ic = All InString ic.name × (irc_channel_name_ok ic.name ≡ true)

-- Another channel has another name, also up to case.
abbrev pub Differs : Channel → Channel → Type 0
Differs ic other = map case_map ic.name ≢ map case_map other.name

abbrev pub NamesDiffer : List Channel → Type 0
NamesDiffer [] = Unit
NamesDiffer (ic ∷ l) = All (Differs ic) l × NamesDiffer l

abbrev pub IsMember : Channel → List Channel → Type 0
IsMember ic [] = ⊥
IsMember ic (x ∷ l) = (x ≡ ic) ⊎ IsMember ic l

equal_iff : (s : Sign) → (is_equal s ≡ true) ↔ (s ≡ equal)
equal_iff minus = (λ e. cc, λ e. cc)
equal_iff equal = (λ e. refl, λ e. refl)
equal_iff plus = (λ e. cc, λ e. cc)

matches_iff :
    (name other : Bytes)
    → All InString name
    → irc_channel_name_ok name ≡ true
    → All InString other
    → irc_channel_name_ok other ≡ true
    → (is_equal (irc_channel_name_cmp name other) ≡ true) ↔ (map case_map name ≡ map case_map other)
matches_iff name other zn ok_n zo ok_o =
    let ((to, from), flipped) = (irc_channel_name_cmp_lem name other zn zo).0 ok_n ok_o in
    let (is, back) = equal_iff (irc_channel_name_cmp name other) in
    (λ e. to (is e), λ e. back (from e))

-- A name is found exactly if a channel of the list has it up to case.
by_name_none :
    (l : List Channel) (name : Bytes)
    → All InString name
    → irc_channel_name_ok name ≡ true
    → All IsNamed l
    → irc_channel_by_name l name ≡ none
    → All (λ ic. map case_map name ≢ map case_map ic.name) l
unfolding irc_channel_by_name
by_name_none [] name z ok n e = tt
by_name_none (ic ∷ l) name z ok ((zi, oki), n) e =
    let m = matches_iff name ic.name z ok zi oki in
    let rest = by_name_none l name z ok n in
    elim (Bool-cases (is_equal (irc_channel_name_cmp name ic.name))) [
      | inl h ↦ absurd (let e = rw h at e in cc)
      | inr h ↦ (λ s. absurd (false≢true (sym h ∙ m.1 s)), rest (rw h at e))
    ]

All-member :
    (P : Channel → Type 0) (l : List Channel) (ic : Channel) → All P l → IsMember ic l → P ic
All-member P [] ic a m = absurd m
All-member P (x ∷ l) ic (p, a) m = elim m [ inl e ↦ subst P e p | inr m ↦ All-member P l ic a m ]

by_name_some :
    (l : List Channel) (name : Bytes) (ic : Channel)
    → All InString name
    → irc_channel_name_ok name ≡ true
    → All IsNamed l
    → NamesDiffer l
    → IsMember ic l
    → map case_map name ≡ map case_map ic.name
    → irc_channel_by_name l name ≡ some ic
unfolding irc_channel_by_name
by_name_some [] name ic z ok n d (m) same = absurd m
by_name_some (x ∷ l) name ic z ok ((zx, okx), n) (differs, d) m same =
    let is = matches_iff name x.name z ok zx okx in
    elim m [
      | inl e ↦
          (let hit : is_equal (irc_channel_name_cmp name x.name) ≡ true =
              is.1 (same ∙ ap (λ ic. map case_map ic.name) (sym e)) in
            rw hit (ap some e))
      | inr rest ↦ elim (Bool-cases (is_equal (irc_channel_name_cmp name x.name))) [
        | inl hit ↦ absurd (All-member (Differs x) l ic differs rest (sym (is.0 hit) ∙ same))
        | inr miss ↦ rw miss (by_name_some l name ic z ok n d rest same)
      ]
    ]

-- `irc_channel_by_name` finds a channel by each text that is its name up to case, and finds none
-- only if no channel has it.
pub irc_channel_by_name_lem :
    (l : List Channel) (name : Bytes)
    → All InString name
    → irc_channel_name_ok name ≡ true
    → All IsNamed l
    → NamesDiffer l
    → ((ic : Channel)
        → IsMember ic l
        → map case_map name ≡ map case_map ic.name
        → irc_channel_by_name l name ≡ some ic)
      × (irc_channel_by_name l name ≡ none → All (λ ic. map case_map name ≢ map case_map ic.name) l)
irc_channel_by_name_lem l name z ok n d =
    (λ ic m same. by_name_some l name ic z ok n d m same, by_name_none l name z ok n)

pub add_user-name :
    (gl : Slist ChannelUser) (irc : Place) (ic : Channel) (iu : ℕ)
    → (irc_channel_add_user gl irc ic iu).ic.name ≡ ic.name
unfolding irc_channel_add_user ◌then◌ announce
add_user-name gl irc ic iu =
    let d = irc_channel_update_ops irc (enter gl irc ic iu) irc.ops in
    let q = update_ops-Quiet irc (enter gl irc ic iu) irc.ops in
    let kept : d.ic.name ≡ ic.name = q.name ∙ (unfold enter in refl) in
    if_both (λ (d : Done). d.ic.name ≡ ic.name) (irc_channel_has_user ic iu) _ _ refl
      (if_both (λ (d : Done). d.ic.name ≡ ic.name) (iu == irc.user || d.ic.joined) _ _ kept kept)

pub fresh_channel-name :
    (gl : Slist ChannelUser) (irc : Place) (p : ℕ) (name : Bytes)
    → (fresh_channel gl irc p name).name ≡ name
unfolding fresh_channel
fresh_channel-name gl irc p name =
    add_user-name gl irc
      (record { self = p; name = name; joined = false; temp = false; topic = none; users = [] })
      irc.root

NamesDiffer-append :
    (l : List Channel) (ic : Channel)
    → NamesDiffer l
    → All (λ x. map case_map ic.name ≢ map case_map x.name) l
    → NamesDiffer (l ++ ic ∷ [])
NamesDiffer-append [] ic d a = (tt, tt)
NamesDiffer-append (x ∷ l) ic (differs, d) (ne, a) =
    (All-append (Differs x) l (ic ∷ []) differs (λ e. ne (sym e), tt), NamesDiffer-append l ic d a)

IsMember-last : (l : List Channel) (ic : Channel) → IsMember ic (l ++ ic ∷ [])
IsMember-last [] ic = inl refl
IsMember-last (x ∷ l) ic = inr (IsMember-last l ic)

-- A channel is made exactly if the name is accepted and no channel has it. It is then found by that
-- name, and the names of the channels still differ.
pub irc_channel_new_lem :
    (gl : Slist ChannelUser) (irc : Place) (p : ℕ) (l : List Channel) (name : Bytes)
    → All InString name
    → All IsNamed l
    → NamesDiffer l
    → ((irc_channel_new gl irc p l name ≡ none)
        ↔ ((irc_channel_name_ok name ≡ false) ⊎ (irc_channel_by_name l name ≢ none)))
      × ((after : List Channel)
          → irc_channel_new gl irc p l name ≡ some after
          → All IsNamed after
            × NamesDiffer after
            × (irc_channel_by_name after name ≡ some (fresh_channel gl irc p name)))
unfolding irc_channel_new
irc_channel_new_lem gl irc p l name z n d =
    let ic = fresh_channel gl irc p name in
    let named : ic.name ≡ name = fresh_channel-name gl irc p name in
    let found = irc_channel_by_name_lem l name z in
    elim (Bool-cases (irc_channel_name_ok name)) [
      | inl ok ↦ rw ok (elim (Option-cases (irc_channel_by_name l name)) [
        | inl free ↦ rw free (
          (λ e. cc, λ e. absurd (elim e [ inl e ↦ false≢true (sym e) | inr e ↦ e refl ])),
          λ after e.
              let same : l ++ ic ∷ [] ≡ after = (cc) in
              let named_all = All-append IsNamed l (ic ∷ []) n (rw named (z, ok), tt) in
              let differ = NamesDiffer-append l ic d (rw named ((found ok n d).1 free)) in
              let at_end =
                (irc_channel_by_name_lem (l ++ ic ∷ []) name z ok named_all differ).0 ic
                  (IsMember-last l ic) (rw named refl) in
              rw (sym same) (named_all, differ, at_end),
        )
        | inr (other, taken) ↦ rw taken ((λ e. inr (λ e. cc), λ e. refl), λ after e. cc)
      ])
      | inr bad ↦ rw bad ((λ e. inl refl, λ e. refl), λ after e. cc)
    ]
