-- ===== src/Query/Order.antt =====
-- query.c: which question an answer is for, and what is left of the list.
use bitl_steam.Common.{
  ℕ, ◌≡◌, refl, ap, sym, ◌∙◌, Bool, true, false, Option, none, some, List, [], ◌∷◌, ◌++◌, codes,
  contains, ==_refl, if◌then◌else◌, arith, Bool-cases, inl, inr,
}
use bitl_steam.Common.Outcome.{done}
use bitl_steam.Glib.{Glib}
use bitl_steam.Query.{
  Query, Irc, accepted, rejected, say, call, release_data, release, display_found, answer_found,
  last, query_display, display_default, one_line, is_linked, unlink, query_del, query_default,
  query_add, tell, answered, query_answer,
}

-- Events leave the list and the setting alone.
call-queries :
    (f d : Option ℕ) (irc : Irc)
    → ((call f d irc).queries ≡ irc.queries) × ((call f d irc).query_order ≡ irc.query_order)
unfolding call say
call-queries none d irc = (refl, refl)
call-queries (some f) d irc = (refl, refl)

release_data-queries :
    (f d : Option ℕ) (irc : Irc)
    → ((release_data f d irc).queries ≡ irc.queries)
      × ((release_data f d irc).query_order ≡ irc.query_order)
unfolding release_data
release_data-queries f none irc = (refl, refl)
release_data-queries f (some d) irc = call-queries f (some d) irc

release-queries :
    (q : Query) (irc : Irc)
    → ((release q irc).queries ≡ irc.queries) × ((release q irc).query_order ≡ irc.query_order)
unfolding release
release-queries q irc = release_data-queries q.free q.user_data irc

unlink-eq_self : (p : ℕ) (l : List Query) → is_linked p l ≡ false → unlink p l ≡ l
unfolding is_linked unlink
unlink-eq_self p [] h = refl
unlink-eq_self p (q ∷ l) h = (let rest = unlink-eq_self p l in ground arith)

pub query_del-queries :
    (q : Query) (irc : Irc)
    → ((query_del q irc).queries ≡ unlink q.self irc.queries)
      × ((query_del q irc).query_order ≡ irc.query_order)
unfolding query_del
query_del-queries q irc = elim (Bool-cases (is_linked q.self irc.queries)) [
  | inl linked ↦
      (rw linked (release-queries q (record irc { queries = unlink q.self irc.queries })))
  | inr not_linked ↦ (rw not_linked (sym (unlink-eq_self q.self irc.queries not_linked), refl))
]

unlink-append_last :
    (q : Query) (l : List Query) → is_linked q.self l ≡ false → unlink q.self (l ++ q ∷ []) ≡ l
unfolding is_linked unlink
unlink-append_last q [] h = rw (==_refl q.self)
unlink-append_last q (r ∷ l) h = (let rest = unlink-append_last q l in ground arith)

unlink-first : (q : Query) (l : List Query) → unlink q.self (q ∷ l) ≡ l
unfolding unlink
unlink-first q l = rw (==_refl q.self)

pub last-append_last : (q : Query) (l : List Query) → last (l ++ q ∷ []) ≡ some q
unfolding last
last-append_last q [] = refl
last-append_last q (r ∷ []) = refl
last-append_last q (r ∷ s ∷ l) = last-append_last q (s ∷ l)

tell-queries :
    (q : Query) (ans : Bool) (irc : Irc)
    → ((tell q ans irc).queries ≡ irc.queries) × ((tell q ans irc).query_order ≡ irc.query_order)
unfolding tell say
tell-queries q true irc = call-queries q.yes q.user_data (say (accepted q.ic q.question) irc)
tell-queries q false irc = call-queries q.no q.user_data (say (rejected q.ic q.question) irc)

pub answered-queries :
    (q : Query) (ans : Bool) (irc : Irc)
    → ((answered q ans irc).queries ≡ unlink q.self irc.queries)
      × ((answered q ans irc).query_order ≡ irc.query_order)
unfolding answered
answered-queries q ans irc =
    let (list, order) = query_del-queries (record q { user_data = none }) (tell q ans irc) in
    let (list', order') = tell-queries q ans irc in
    (list ∙ ap (unlink q.self) list', order ∙ order')

display_found-queries : (o : Option Query) (irc : Irc) → (display_found o irc).queries ≡ irc.queries
unfolding display_found query_display say
display_found-queries none irc = refl
display_found-queries (some q) irc = refl

display_default-queries : (g : Glib) (irc : Irc) → (display_default g irc).queries ≡ irc.queries
unfolding display_default
display_default-queries g irc = display_found-queries (query_default g irc) irc

-- The question as the list has it.
abbrev pub stored : Query → Irc → Query
stored new irc =
    if contains irc.umode b'b' then record new { question = one_line new.question } else new

stored-self : (new : Query) (irc : Irc) → (stored new irc).self ≡ new.self
stored-self new irc = ground arith

display_if-queries :
    (b : Bool) (q : Query) (irc : Irc)
    → ((if b then query_display q irc else irc).queries ≡ irc.queries)
      × ((if b then query_display q irc else irc).query_order ≡ irc.query_order)
unfolding query_display say
display_if-queries true q irc = (refl, refl)
display_if-queries false q irc = (refl, refl)

module _ (g : Glib) where
  pub query_add-queries :
      (new : Query) (irc : Irc)
      → ((query_add g new irc).queries ≡ irc.queries ++ stored new irc ∷ [])
        × ((query_add g new irc).query_order ≡ irc.query_order)
  unfolding query_add
  query_add-queries new irc = display_if-queries _ (stored new irc) _

  query_answer-found :
      (irc : Irc) (q : Query) (ans : Bool)
      → query_default g irc ≡ some q
      → query_answer g none ans irc ≡ done (display_default g (answered q ans irc))
  unfolding query_answer answer_found
  query_answer-found irc q ans h = rw h

  answer_default-queries :
      (q : Query) (ans : Bool) (irc : Irc)
      → (display_default g (answered q ans irc)).queries ≡ unlink q.self irc.queries
  answer_default-queries q ans irc =
      let (list, order) = answered-queries q ans irc in
      display_default-queries g (answered q ans irc) ∙ list

  -- With any order but "fifo": the answer to a question just added, under a new address, is an answer
  -- to that question, and leaves the list as it was before.
  pub query_answer-query_add :
      (new : Query) (irc : Irc) (ans : Bool)
      → g.strcasecmp irc.query_order (codes "fifo") ≡ false
      → is_linked new.self irc.queries ≡ false
      → (irc' : Irc) × (query_answer g none ans (query_add g new irc) ≡ done irc')
        × (irc'.queries ≡ irc.queries)
  unfolding query_default
  query_answer-query_add new irc ans order fresh =
      let added = query_add g new irc in
      let (list, same) = query_add-queries new irc in
      let q = stored new irc in
      let found : query_default g added ≡ some q =
        rw (same, list, order, last-append_last q irc.queries) in
      (
        display_default g (answered q ans added),
        query_answer-found added q ans found,
        answer_default-queries q ans added
            ∙ ap (unlink q.self) list
            ∙ unlink-append_last q irc.queries
                (ap (λ p. is_linked p irc.queries) (stored-self new irc) ∙ fresh),
      )

  -- With "fifo", it is an answer to the oldest question, and the new one waits behind the others.
  pub query_answer-query_add_fifo :
      (new q : Query) (l : List Query) (irc : Irc) (ans : Bool)
      → g.strcasecmp irc.query_order (codes "fifo") ≡ true
      → irc.queries ≡ q ∷ l
      → (irc' : Irc) × (query_answer g none ans (query_add g new irc) ≡ done irc')
        × (irc'.queries ≡ l ++ stored new irc ∷ [])
  unfolding query_default
  query_answer-query_add_fifo new q l irc ans order list₀ =
      let added = query_add g new irc in
      let (list, same) = query_add-queries new irc in
      let found : query_default g added ≡ some q = rw (same, list, order, list₀) in
      (
        display_default g (answered q ans added),
        query_answer-found added q ans found,
        answer_default-queries q ans added
            ∙ ap (unlink q.self) (list ∙ ap (λ x. x ++ stored new irc ∷ []) list₀)
            ∙ unlink-first q (l ++ stored new irc ∷ []),
      )
