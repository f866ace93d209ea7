-- ===== src/Query/Flush.antt =====
-- query.c: `query_del_by_conn`.
use bitl_steam.Common.{
  ℕ, suc, ◌+◌, ◌≡◌, refl, ap, sym, ◌∙◌, true, false, ◌||◌, Option, none, some, List, [], ◌∷◌, ◌++◌,
  append-nil, append_assoc, Bytes, ◌==◌, ==_refl, if◌then◌else◌, arith, Bool-cases, inl, inr,
}
use bitl_steam.Glib.{Glib}
use bitl_steam.Query.{
  Query, Irc, Event, called, flushed, asked, call, release_data, say, same, is_linked, unlink,
  release, query_del, flush, flush_conn, query_default, display_changed, query_display,
  query_del_by_conn, differs,
}
use bitl_steam.Query.Order.{query_del-queries}

-- No address is there twice.
abbrev pub IsDistinct : List Query → Type 0
IsDistinct [] = Unit
IsDistinct (q ∷ l) = (is_linked q.self l ≡ false) × IsDistinct l

-- The questions of other connections, and the number of those of this one.
abbrev pub others : ℕ → List Query → List Query
others ic [] = []
others ic (q ∷ l) = if same q.ic (some ic) then others ic l else q ∷ others ic l

abbrev pub number : ℕ → List Query → ℕ
number ic [] = 0
number ic (q ∷ l) = if same q.ic (some ic) then suc (number ic l) else number ic l

-- The list without a question that is behind others with other addresses.
unlink-append :
    (q : Query) (kept l : List Query)
    → is_linked q.self kept ≡ false
    → unlink q.self (kept ++ q ∷ l) ≡ kept ++ l
unfolding is_linked unlink
unlink-append q [] l h = rw (==_refl q.self)
unlink-append q (r ∷ kept) l h = (let rest = unlink-append q kept l in ground arith)

-- No question of the first list is in the second.
abbrev Apart : List Query → List Query → Type 0
Apart kept [] = Unit
Apart kept (q ∷ l) = (is_linked q.self kept ≡ false) × Apart kept l

is_linked-append :
    (p : ℕ) (k l : List Query) → is_linked p (k ++ l) ≡ (is_linked p k || is_linked p l)
unfolding is_linked
is_linked-append p [] l = refl
is_linked-append p (q ∷ k) l = (let rest = is_linked-append p k l in ground arith)

is_linked_comm : (q r : Query) → is_linked q.self (r ∷ []) ≡ is_linked r.self (q ∷ [])
unfolding is_linked
is_linked_comm q r = ground arith

is_linked-first :
    (q r : Query) (l : List Query)
    → is_linked r.self (q ∷ l) ≡ false
    → (is_linked r.self (q ∷ []) ≡ false) × (is_linked r.self l ≡ false)
unfolding is_linked
is_linked-first q r l h = ground arith

Apart-append :
    (kept l : List Query) (q : Query)
    → Apart kept l
    → is_linked q.self l ≡ false
    → Apart (kept ++ q ∷ []) l
Apart-append kept [] q a h = tt
Apart-append kept (r ∷ l) q (k, a) h =
    let (one, rest) = is_linked-first r q l h in
    (
      is_linked-append r.self kept (q ∷ []) ∙ (rw (k, is_linked_comm r q, one)),
      Apart-append kept l q a rest,
    )

Apart-nil : (l : List Query) → Apart [] l
unfolding is_linked
Apart-nil [] = tt
Apart-nil (q ∷ l) = (refl, Apart-nil l)

flush-queries :
    (ic : ℕ) (l kept : List Query) (irc : Irc) (n : ℕ)
    → irc.queries ≡ kept ++ l
    → IsDistinct l
    → Apart kept l
    → ((flush ic l irc n).0.queries ≡ kept ++ others ic l)
      × ((flush ic l irc n).1 ≡ n + number ic l)
unfolding flush
flush-queries ic [] kept irc n e d a = (e, omega arith)
flush-queries ic (q ∷ l) kept irc n e (new, d) (k, a) = elim (Bool-cases (same q.ic (some ic))) [
  | inl mine ↦
      let (list, order) = query_del-queries q irc in
      let e' = list ∙ ap (unlink q.self) e ∙ unlink-append q kept l k in
      let (rest, count) = flush-queries ic l kept (query_del q irc) (suc n) e' d a in
      (rw mine (rest, omega arith))
  | inr not_mine ↦
      let e' = e ∙ sym (append_assoc kept (q ∷ []) l) in
      let (rest, count) =
        flush-queries ic l (kept ++ q ∷ []) irc n e' d (Apart-append kept l q a new) in
      (rw not_mine (rest ∙ append_assoc kept (q ∷ []) (others ic l), count))
]

-- The calls that free the data of the connection's questions.
abbrev pub freed_data : Option ℕ → Option ℕ → List Event
freed_data (some f) (some d) = called f (some d) ∷ []
freed_data _ _ = []

abbrev pub freed : Query → List Event
freed q = freed_data q.free q.user_data

abbrev pub freed_all : ℕ → List Query → List Event
freed_all ic [] = []
freed_all ic (q ∷ l) = if same q.ic (some ic) then freed q ++ freed_all ic l else freed_all ic l

release_data-log :
    (f d : Option ℕ) (irc : Irc) → (release_data f d irc).log ≡ irc.log ++ freed_data f d
unfolding release_data call say
release_data-log none none irc = sym (append-nil irc.log)
release_data-log (some f) none irc = sym (append-nil irc.log)
release_data-log none (some d) irc = sym (append-nil irc.log)
release_data-log (some f) (some d) irc = refl

release-log : (q : Query) (irc : Irc) → (release q irc).log ≡ irc.log ++ freed q
unfolding release
release-log q irc = release_data-log q.free q.user_data irc

query_del-log :
    (q : Query) (irc : Irc)
    → is_linked q.self irc.queries ≡ true
    → (query_del q irc).log ≡ irc.log ++ freed q
unfolding query_del
query_del-log q irc h = rw h (release-log q (record irc { queries = unlink q.self irc.queries }))

is_linked-middle : (q : Query) (kept l : List Query) → is_linked q.self (kept ++ q ∷ l) ≡ true
unfolding is_linked
is_linked-middle q [] l = rw (==_refl q.self)
is_linked-middle q (r ∷ kept) l = (let rest = is_linked-middle q kept l in ground arith)

flush-log :
    (ic : ℕ) (l kept : List Query) (irc : Irc) (n : ℕ)
    → irc.queries ≡ kept ++ l
    → IsDistinct l
    → Apart kept l
    → (flush ic l irc n).0.log ≡ irc.log ++ freed_all ic l
unfolding flush
flush-log ic [] kept irc n e d a = sym (append-nil irc.log)
flush-log ic (q ∷ l) kept irc n e (new, d) (k, a) = elim (Bool-cases (same q.ic (some ic))) [
  | inl mine ↦
      let (list, order) = query_del-queries q irc in
      let e' = list ∙ ap (unlink q.self) e ∙ unlink-append q kept l k in
      let linked = ap (is_linked q.self) e ∙ is_linked-middle q kept l in
      let rest = flush-log ic l kept (query_del q irc) (suc n) e' d a in
      rw mine (
        rest
        ∙ ap (λ x. x ++ freed_all ic l) (query_del-log q irc linked)
        ∙ append_assoc irc.log (freed q) (freed_all ic l))
  | inr not_mine ↦
      let e' = e ∙ sym (append_assoc kept (q ∷ []) l) in
      rw not_mine (flush-log ic l (kept ++ q ∷ []) irc n e' d (Apart-append kept l q a new))
]

-- What is said when all is removed: the number of questions, if there were any.
abbrev pub notice : ℕ → ℕ → List Event
notice ic n = if n == 0 then [] else flushed ic n ∷ []

-- The default question, if it is not the one that was the default before.
abbrev pub renewed : Option Query → Option Query → List Event
renewed before none = []
renewed before (some q) = if differs before q then asked q.ic q.question ∷ [] else []

display_changed-lem :
    (before after : Option Query) (irc : Irc)
    → ((display_changed before after irc).queries ≡ irc.queries)
      × ((display_changed before after irc).log ≡ irc.log ++ renewed before after)
unfolding display_changed query_display say
display_changed-lem before none irc = (refl, sym (append-nil irc.log))
display_changed-lem before (some q) irc = ground (arith, append-nil irc.log)

flush-order :
    (ic : ℕ) (l : List Query) (irc : Irc) (n : ℕ)
    → (flush ic l irc n).0.query_order ≡ irc.query_order
unfolding flush
flush-order ic [] irc n = refl
flush-order ic (q ∷ l) irc n = elim (Bool-cases (same q.ic (some ic))) [
  | inl mine ↦
      (let (list, order) = query_del-queries q irc in
        rw mine (flush-order ic l (query_del q irc) (suc n) ∙ order))
  | inr not_mine ↦ (rw not_mine (flush-order ic l irc n))
]

-- The three fields that the loop and the notice leave.
abbrev HasFields : Irc → List Query → Bytes → List Event → Type 0
HasFields irc qs order es = (irc.queries ≡ qs) × (irc.query_order ≡ order) × (irc.log ≡ es)

notice-HasFields :
    (ic n m : ℕ) (irc : Irc) (qs : List Query) (order : Bytes) (es : List Event)
    → m ≡ n
    → HasFields irc qs order es
    → HasFields (if m == 0 then irc else say (flushed ic m) irc) qs order (es ++ notice ic n)
unfolding say
notice-HasFields ic n m irc qs order es same_number (a, b, c) = ground (arith, append-nil es)

flush_conn-HasFields :
    (ic : ℕ) (irc : Irc)
    → IsDistinct irc.queries
    → HasFields
        (flush_conn ic irc)
        (others ic irc.queries)
        irc.query_order
        ((irc.log ++ freed_all ic irc.queries) ++ notice ic (number ic irc.queries))
unfolding flush_conn
flush_conn-HasFields ic irc d =
    let l = irc.queries in
    let apart = Apart-nil l in
    let (list, count) = flush-queries ic l [] irc 0 refl d apart in
    notice-HasFields ic (number ic l) (flush ic l irc 0).1 (flush ic l irc 0).0 (others ic l)
      irc.query_order (irc.log ++ freed_all ic l) (omega (arith, count))
      (list, flush-order ic l irc 0, flush-log ic l [] irc 0 refl d apart)

module _ (g : Glib) (ic : ℕ) (irc : Irc) where
  -- In a list with no address twice: all questions of the connection, and no others, leave it; the
  -- data of each is freed, if it has data and a function to free it, once
  -- and in order; their number is told; and the question that is now the next to answer is shown if
  -- it was not that before.
  pub query_del_by_conn_lem :
      IsDistinct irc.queries
      → ((query_del_by_conn g (some ic) irc).queries ≡ others ic irc.queries)
        × ((query_del_by_conn g (some ic) irc).log
            ≡ ((irc.log ++ freed_all ic irc.queries) ++ notice ic (number ic irc.queries))
              ++ renewed
                  (query_default g irc)
                  (query_default g (record irc { queries = others ic irc.queries })))
  unfolding query_del_by_conn query_default
  query_del_by_conn_lem d =
      let (a, b, c) = flush_conn-HasFields ic irc d in
      let (same_list, more) =
        display_changed-lem (query_default g irc) (query_default g (flush_conn ic irc))
          (flush_conn ic irc) in
      (same_list ∙ a, more ∙ (rw (c, b, a)))
