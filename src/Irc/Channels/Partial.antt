-- ===== src/Irc/Channels/Partial.antt =====
-- irc_channel.c: what `irc_channel_get` finds by a part of a name.
use bitl_steam.Common.{
  ℕ, ◌∙◌, ◌<◌, ◌≤◌, ◌≡◌, ◌↔◌, refl, ap, sym, true, false, Option, none, some, List, [], ◌∷◌, ◌++◌,
  Bytes, get_elem?, ltb, arith, All, Bool-cases, inl, inr, ◌⊎◌,
}
use bitl_steam.Common.Outcome.{done, fault}
use bitl_steam.Stdio.{pos, negsuc, scan_int}
use bitl_steam.Irc.Channel.{Channel}
use bitl_steam.Irc.Channels.{
  irc_channel_by_name, strstr, only_match, nth, is_index, exact_or, by_text, get_scanned,
  irc_channel_get,
}

-- With a partial match already: there is no other.
only_match-some :
    (l : List Channel) (id : Bytes) (first ic : Channel)
    → only_match l id (some first) ≡ some ic
    → (first ≡ ic) × All (λ x. strstr x.name id ≡ false) l
unfolding only_match
only_match-some [] id first ic e = ((cc), tt)
only_match-some (x ∷ l) id first ic e = elim (Bool-cases (strstr x.name id)) [
  | inl h ↦ absurd (let e = rw h at e in cc)
  | inr h ↦ let (same, rest) = only_match-some l id first ic (rw h at e) in (same, (h, rest))
]

-- The only channel of a list with a text in its name.
abbrev pub IsOnly : Bytes → List Channel → Channel → Type 0
IsOnly id l ic =
    (pre post : List Channel) × (l ≡ pre ++ ic ∷ post)
    × All (λ x. strstr x.name id ≡ false) pre
    × (strstr ic.name id ≡ true)
    × All (λ x. strstr x.name id ≡ false) post

only_match-none :
    (l : List Channel) (id : Bytes) (ic : Channel) → only_match l id none ≡ some ic → IsOnly id l ic
unfolding only_match
only_match-none [] id ic e = cc
only_match-none (x ∷ l) id ic e = elim (Bool-cases (strstr x.name id)) [
  | inl h ↦
      let (same, rest) = only_match-some l id x ic (rw h at e) in
      ([], l, ap (λ r. r ∷ l) same, tt, rw (sym same) h, rest)
  | inr h ↦
      let (pre, post, split, before, is, behind) = only_match-none l id ic (rw h at e) in
      (x ∷ pre, post, ap (λ r. x ∷ r) split, (h, before), is, behind)
]

rest_of :
    (l : List Channel) (id : Bytes) (first : Channel)
    → All (λ x. strstr x.name id ≡ false) l
    → only_match l id (some first) ≡ some first
unfolding only_match
rest_of [] id first a = refl
rest_of (x ∷ l) id first (h, a) = rw h (rest_of l id first a)

only_found :
    (pre post : List Channel) (id : Bytes) (ic : Channel)
    → All (λ x. strstr x.name id ≡ false) pre
    → strstr ic.name id ≡ true
    → All (λ x. strstr x.name id ≡ false) post
    → only_match (pre ++ ic ∷ post) id none ≡ some ic
unfolding only_match
only_found [] post id ic a is b = rw is (rest_of post id ic b)
only_found (x ∷ pre) post id ic (h, a) is b = rw h (only_found pre post id ic a is b)

exact_or_iff :
    (l : List Channel) (id : Bytes) (exact : Option Channel) (ic : Channel)
    → (exact_or l id exact ≡ some ic) ↔ ((exact ≡ some ic) ⊎ ((exact ≡ none) × IsOnly id l ic))
unfolding exact_or
exact_or_iff l id none ic = (
  λ e. inr (refl, only_match-none l id ic e),
  λ e. elim e [
    | inl e ↦ cc
    | inr (e, (pre, post, split, before, is, behind)) ↦
        rw split (only_found pre post id ic before is behind)
  ],
)
exact_or_iff l id (some x) ic = (λ e. inl e, λ e. elim e [ inl e ↦ e | inr (e, only) ↦ cc ])

-- A text that no channel is counted to: it scans as no number, or as one from 1000 up.
abbrev pub IsText : Bytes → Type 0
IsText id = (scan_int id ≡ none) ⊎ ((n : ℕ) × (scan_int id ≡ some (done (pos n))) × (1000 ≤ n))

get-by_text :
    (l : List Channel) (id : Bytes) → IsText id → irc_channel_get l id ≡ done (by_text l id)
unfolding irc_channel_get get_scanned is_index
get-by_text l id (inl e) = rw e refl
get-by_text l id (inr (n, e, large)) =
    rw e (let big : ltb n 1000 ≡ false = (ground arith) in rw big refl)

-- What `irc_channel_get` finds. By a number below 1000 the channel at that place, and by a negative one
-- nothing; by a text that scans as no number, or as one from 1000 up, the channel with that name,
-- or, if there is none, the only channel with the text in its name. A number that no `int` can hold
-- makes `sscanf` undefined.
pub irc_channel_get_lem :
    (l : List Channel) (id : Bytes)
    → ((n : ℕ)
        → scan_int id ≡ some (done (pos n))
        → n < 1000
        → irc_channel_get l id ≡ done (get_elem? l n))
      × ((n : ℕ) → scan_int id ≡ some (done (negsuc n)) → irc_channel_get l id ≡ done none)
      × (IsText id
          → (ic : Channel)
          → (irc_channel_get l id ≡ done (some ic)) ↔ (
              (irc_channel_by_name l id ≡ some ic)
              ⊎ ((irc_channel_by_name l id ≡ none) × IsOnly id l ic)))
      × (scan_int id ≡ some fault → irc_channel_get l id ≡ fault)
unfolding irc_channel_get get_scanned by_text nth is_index
irc_channel_get_lem l id = (
  λ n e small. rw e (let ok : ltb n 1000 ≡ true = (ground arith) in rw ok refl),
  λ n e. rw e refl,
  λ t ic.
      let found = get-by_text l id t in
      let (to, from) = exact_or_iff l id (irc_channel_by_name l id) ic in
      (λ e. to (let e = sym found ∙ e in cc), λ r. found ∙ ap done (from r)),
  λ e. rw e refl,
)
