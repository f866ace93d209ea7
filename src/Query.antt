-- ===== src/Query.antt =====
-- query.c: the questions that wait for the user's answer.
pub mod Order
pub mod Shown
pub mod Flush
mod Examples
use bitl_steam.Common.{
  ℕ, zero, suc, Bool, true, false, ◌||◌, Option, none, some, List, [], ◌∷◌, ◌++◌, map, Bytes, codes,
  contains, ◌==◌, if◌then◌else◌,
}
use bitl_steam.Common.Outcome.{Outcome, done, fault}
use bitl_steam.Glib.{Glib}

-- `query_t`. A pointer is a number: `self` is the question's own address, `ic` the connection it
-- belongs to, `user_data` is `data`, the others are functions and their argument.
pub record Query : Type 0 where
  pub self : ℕ
  pub ic : Option ℕ
  pub question : Bytes
  pub yes : Option ℕ
  pub no : Option ℕ
  pub free : Option ℕ
  pub user_data : Option ℕ

-- What the user is told, and the calls of callbacks with their argument.
pub data Event : Type 0 where
  asked accepted rejected : Option ℕ → Bytes → Event
  called : ℕ → Option ℕ → Event
  flushed : ℕ → ℕ → Event

-- The part of `irc_t` that the questions use, with the setting "query_order" and the events so far.
-- A callback is an event; it does not change the list.
pub record Irc : Type 0 where
  pub queries : List Query
  pub umode : Bytes
  pub query_order : Bytes
  pub log : List Event

unfoldable pub say : Event → Irc → Irc
say e irc = record irc { log = irc.log ++ e ∷ [] }

unfoldable pub last : List Query → Option Query
last [] = none
last (q ∷ []) = some q
last (q ∷ r ∷ l) = last (r ∷ l)

abbrev pub first : List Query → Option Query
first [] = none
first (q ∷ l) = some q

unfoldable pub query_display : Query → Irc → Irc
query_display q = say (asked q.ic q.question)

abbrev pub is_empty : List Query → Bool
is_empty [] = true
is_empty (q ∷ l) = false

unfoldable pub display_found : Option Query → Irc → Irc
display_found none irc = irc
display_found (some q) irc = query_display q irc

-- The question made machine-readable.
abbrev pub one_line : Bytes → Bytes
one_line = map (λ c. if c == 13 || c == 10 then b' ' else c)

abbrev pub same : Option ℕ → Option ℕ → Bool
same none none = true
same (some a) (some b) = a == b
same _ _ = false

-- `if (f) f(data)`
unfoldable pub call : Option ℕ → Option ℕ → Irc → Irc
call none d irc = irc
call (some f) d irc = say (called f d) irc

-- `if (q->free && q->data) q->free(q->data)`
unfoldable pub release_data : Option ℕ → Option ℕ → Irc → Irc
release_data f none irc = irc
release_data f (some d) irc = call f (some d) irc

unfoldable pub release : Query → Irc → Irc
release q = release_data q.free q.user_data

unfoldable pub is_linked : ℕ → List Query → Bool
is_linked p [] = false
is_linked p (q ∷ l) = q.self == p || is_linked p l

unfoldable pub unlink : ℕ → List Query → List Query
unlink p [] = []
unlink p (q ∷ l) = let rest = unlink p l in if q.self == p then l else q ∷ rest

unfoldable pub query_del : Query → Irc → Irc
query_del q irc =
    if is_linked q.self irc.queries
    then release q (record irc { queries = unlink q.self irc.queries })
    else irc

unfoldable pub tell : Query → Bool → Irc → Irc
tell q true irc = call q.yes q.user_data (say (accepted q.ic q.question) irc)
tell q false irc = call q.no q.user_data (say (rejected q.ic q.question) irc)

-- An answer: the words and the callback, and the removal without the call of `free`.
unfoldable pub answered : Query → Bool → Irc → Irc
answered q ans irc = query_del (record q { user_data = none }) (tell q ans irc)

-- The loop over the list, with the number of questions removed.
unfoldable pub flush : ℕ → List Query → Irc → ℕ → Irc × ℕ
flush ic [] irc n = (irc, n)
flush ic (q ∷ l) irc n =
    if same q.ic (some ic) then flush ic l (query_del q irc) (suc n) else flush ic l irc n

-- `q != def`
abbrev pub differs : Option Query → Query → Bool
differs none q = true
differs (some d) q = if d.self == q.self then false else true

-- The loop and the notice.
unfoldable pub flush_conn : ℕ → Irc → Irc
flush_conn ic irc =
    let (irc', count) = flush ic irc.queries irc 0 in
    if count == 0 then irc' else say (flushed ic count) irc'

-- The default question is shown if it is another one than before.
unfoldable pub display_changed : Option Query → Option Query → Irc → Irc
display_changed before none irc = irc
display_changed before (some q) irc = if differs before q then query_display q irc else irc

module _ (g : Glib) where
  unfoldable pub query_default : Irc → Option Query
  query_default irc =
      if g.strcasecmp irc.query_order (codes "fifo") then first irc.queries else last irc.queries

  -- The structure that `query_add` fills, at a new address.
  unfoldable pub query_add : Query → Irc → Irc
  query_add new irc =
      let q =
        if contains irc.umode b'b' then record new { question = one_line new.question } else new in
      let irc' = record irc { queries = irc.queries ++ q ∷ [] } in
      let shown = g.strcasecmp irc.query_order (codes "lifo") || is_empty irc.queries in
      if shown then query_display q irc' else irc'

  -- The default question is shown, if there is one.
  unfoldable pub display_default : Irc → Irc
  display_default irc = display_found (query_default irc) irc

  unfoldable pub answer_found : Option Query → Bool → Irc → Outcome Irc
  answer_found none ans irc = fault
  answer_found (some q) ans irc = done (display_default (answered q ans irc))

  -- `none` is the null pointer, for the default question.
  unfoldable pub query_answer : Option Query → Bool → Irc → Outcome Irc
  query_answer (some q) ans irc = done (answered q ans irc)
  query_answer none ans irc = answer_found (query_default irc) ans irc

  unfoldable pub query_del_by_conn : Option ℕ → Irc → Irc
  query_del_by_conn none irc = irc
  query_del_by_conn (some ic) irc =
      display_changed (query_default irc) (query_default (flush_conn ic irc)) (flush_conn ic irc)
