-- ===== src/Query/Shown.antt =====
-- query.c: the question to answer next, and what the user was shown.
use bitl_steam.Common.{
  ◌≡◌, ◌⊎◌, refl, ap, sym, ◌∙◌, Bool, true, false, ◌||◌, Option, none, some, List, [], ◌∷◌, ◌++◌,
  append_assoc, codes, if◌then◌else◌, arith, Bool-cases, inl, inr,
}
use bitl_steam.Common.Outcome.{done}
use bitl_steam.Glib.{Glib}
use bitl_steam.Query.{
  Query, Irc, Event, asked, say, is_empty, first, query_default, query_display, display_found,
  display_default, query_add, answered, answer_found, query_answer,
}
use bitl_steam.Query.Order.{stored, query_add-queries, last-append_last}

-- An event is among the events so far.
abbrev pub Has : List Event → Event → Type 0
Has log e = (before : List Event) × (after : List Event) × (log ≡ before ++ e ∷ after)

Has-append : (log more : List Event) (e : Event) → Has log e → Has (log ++ more) e
Has-append log more e (before, after, h) =
    (before, after ++ more, ap (λ x. x ++ more) h ∙ append_assoc before (e ∷ after) more)

first_cases :
    (l : List Query) (n : Query)
    → ((is_empty l ≡ true) × (first (l ++ n ∷ []) ≡ some n)) ⊎ (first (l ++ n ∷ []) ≡ first l)
first_cases [] n = inl (refl, refl)
first_cases (q ∷ l) n = inr refl

module _ (g : Glib) where
  -- The default question, if there is one, has been shown.
  abbrev pub IsShown : Irc → Type 0
  IsShown irc = (q : Query) → query_default g irc ≡ some q → Has irc.log (asked q.ic q.question)

  display_found-IsShown :
      (o : Option Query) (irc : Irc) (q : Query)
      → o ≡ some q
      → Has (display_found o irc).log (asked q.ic q.question)
  unfolding display_found query_display say
  display_found-IsShown none irc q e = absurd (cc)
  display_found-IsShown (some r) irc q e = (irc.log, [], (let same : r ≡ q = (cc) in rw same))

  display_found-default :
      (o : Option Query) (irc : Irc) → query_default g (display_found o irc) ≡ query_default g irc
  unfolding display_found query_display say query_default
  display_found-default none irc = refl
  display_found-default (some q) irc = refl

  display_default-IsShown : (irc : Irc) → IsShown (display_default g irc)
  unfolding display_default
  display_default-IsShown irc q e =
      display_found-IsShown (query_default g irc) irc q
        (sym (display_found-default (query_default g irc) irc) ∙ e)

  answer_found-IsShown :
      (o : Option Query) (ans : Bool) (irc irc' : Irc)
      → answer_found g o ans irc ≡ done irc'
      → IsShown irc'
  unfolding answer_found
  answer_found-IsShown none ans irc irc' e = absurd (cc)
  answer_found-IsShown (some r) ans irc irc' e =
      let same : display_default g (answered r ans irc) ≡ irc' = (cc) in
      rw (sym same) (display_default-IsShown (answered r ans irc))

  -- After an answer to the default question, the next one is shown.
  pub query_answer-IsShown :
      (ans : Bool) (irc irc' : Irc) → query_answer g none ans irc ≡ done irc' → IsShown irc'
  unfolding query_answer
  query_answer-IsShown ans irc irc' e = answer_found-IsShown (query_default g irc) ans irc irc' e

  -- The default question behind `query_add`: the new one, or the one from before.
  query_add-default :
      (new : Query) (irc : Irc)
      → ((query_default g (query_add g new irc) ≡ some (stored new irc))
          × ((g.strcasecmp irc.query_order (codes "fifo") ≡ false) ⊎ (is_empty irc.queries ≡ true)))
        ⊎ ((query_default g (query_add g new irc) ≡ query_default g irc))
  unfolding query_default
  query_add-default new irc =
      let (list, order) = query_add-queries g new irc in
      elim (Bool-cases (g.strcasecmp irc.query_order (codes "fifo"))) [
        | inl fifo ↦ elim (first_cases irc.queries (stored new irc)) [
          | inl (nothing, e) ↦ inl (rw (order, fifo, list) e, inr nothing)
          | inr e ↦ inr (rw (order, fifo, list) e)
        ]
        | inr other ↦
            inl (rw (order, other, list) (last-append_last (stored new irc) irc.queries), inl other)
      ]

  display_if-log :
      (b : Bool) (q : Query) (irc : Irc)
      → ((e : Event) → Has irc.log e → Has (if b then query_display q irc else irc).log e)
        × (b ≡ true → Has (if b then query_display q irc else irc).log (asked q.ic q.question))
  unfolding query_display say
  display_if-log true q irc =
      (λ e h. Has-append irc.log (asked q.ic q.question ∷ []) e h, λ t. (irc.log, [], refl))
  display_if-log false q irc = (λ e h. h, λ t. absurd (cc))

  query_add-log :
      (new : Query) (irc : Irc)
      → ((e : Event) → Has irc.log e → Has (query_add g new irc).log e)
        × ((g.strcasecmp irc.query_order (codes "lifo") || is_empty irc.queries) ≡ true
            → Has (query_add g new irc).log (asked (stored new irc).ic (stored new irc).question))
  unfolding query_add
  query_add-log new irc = display_if-log _ (stored new irc) _

  -- Where the default question, if there is one, has been shown, it has been shown also after a
  -- question was added, if the order is "lifo" or "fifo".
  pub query_add-IsShown :
      (new : Query) (irc : Irc)
      → (g.strcasecmp irc.query_order (codes "lifo") ≡ true)
        ⊎ (g.strcasecmp irc.query_order (codes "fifo") ≡ true)
      → IsShown irc
      → IsShown (query_add g new irc)
  query_add-IsShown new irc known h q e =
      let (kept, told) = query_add-log new irc in
      elim (query_add-default new irc) [
        | inl (found, why) ↦
            let is_new : stored new irc ≡ q = (cc) in
            rw (sym is_new) (
              told (elim why [
                | inl not_fifo ↦ elim known [ inl lifo ↦ ground arith | inr fifo ↦ absurd (cc) ]
                | inr nothing ↦ ground arith
              ]))
        | inr found ↦ kept (asked q.ic q.question) (h q (sym found ∙ e))
      ]

  last_default :
      (new : Query) (irc : Irc)
      → g.strcasecmp irc.query_order (codes "fifo") ≡ false
      → query_default g (query_add g new irc) ≡ some (stored new irc)
  unfolding query_default
  last_default new irc no_fifo =
      let (list, order) = query_add-queries g new irc in
      rw (order, no_fifo, list) (last-append_last (stored new irc) irc.queries)

  -- With any third order the new question is the one to answer next, and is not shown if others wait.
  pub query_add_silent :
      (new : Query) (irc : Irc)
      → g.strcasecmp irc.query_order (codes "lifo") ≡ false
      → g.strcasecmp irc.query_order (codes "fifo") ≡ false
      → is_empty irc.queries ≡ false
      → (query_default g (query_add g new irc) ≡ some (stored new irc))
        × ((query_add g new irc).log ≡ irc.log)
  unfolding query_add
  query_add_silent new irc no_lifo no_fifo others =
      (last_default new irc no_fifo, (rw (no_lifo, others)))
