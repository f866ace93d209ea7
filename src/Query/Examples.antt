-- ===== src/Query/Examples.antt =====
-- query.c: a run with three questions, and the theorems at concrete states.
use bitl_steam.Common.{ℕ, ◌≡◌, ◌++◌, refl, true, Option, none, some, [], ◌∷◌, Bytes, codes, inr}
use bitl_steam.Common.Outcome.{done}
use bitl_steam.Glib.Ascii.{ascii}
use bitl_steam.Query.{
  last, say, Query, Irc, asked, accepted, called, flushed, is_linked, unlink, call, release_data,
  release, query_del, query_display, display_found, display_default, tell, answered, answer_found,
  query_answer, query_add, query_default, flush, flush_conn, display_changed, query_del_by_conn,
}
use bitl_steam.Query.Shown.{IsShown, query_add-IsShown}
use bitl_steam.Query.Flush.{IsDistinct, freed_all, notice, renewed, query_del_by_conn_lem}

abbrev question : ℕ → Option ℕ → Query
question p ic = record {
  self = p;
  ic = ic;
  question = codes "Q?";
  yes = some 100;
  no = none;
  free = some 200;
  user_data = some p;
}

abbrev idle : Bytes → Irc
idle order = record { queries = []; umode = []; query_order = order; log = [] }

abbrev waiting : Bytes → Irc
waiting order = record (idle order) {
  queries = question 1 (some 7) ∷ question 2 none ∷ question 3 (some 7) ∷ [];
}

answer_newest :
    query_answer ascii none true (waiting (codes "lifo"))
    ≡ done (record (waiting (codes "lifo")) {
      queries = question 1 (some 7) ∷ question 2 none ∷ [];
      log = accepted (some 7) (codes "Q?") ∷ called 100 (some 3) ∷ asked none (codes "Q?") ∷ [];
    })
unfolding query_answer answer_found answered tell call query_del is_linked unlink release
    release_data display_default display_found query_display query_default last say
answer_newest = refl

leave :
    query_del_by_conn ascii (some 7) (waiting (codes "fifo")) ≡ record (waiting (codes "fifo")) {
      queries = question 2 none ∷ [];
      log = called 200 (some 1) ∷ called 200 (some 3) ∷ flushed 7 2 ∷ asked none (codes "Q?") ∷ [];
    }
unfolding query_del_by_conn flush_conn flush call query_del is_linked unlink release release_data
    display_changed query_display query_default last say
leave = refl

idle-IsShown : IsShown ascii (idle (codes "fifo"))
unfolding query_default
idle-IsShown q e = absurd (cc)

query_add-IsShown_example : IsShown ascii (query_add ascii (question 4 none) (idle (codes "fifo")))
query_add-IsShown_example =
    query_add-IsShown ascii (question 4 none) (idle (codes "fifo")) (inr refl) idle-IsShown

waiting-IsDistinct : IsDistinct (Irc.queries (waiting (codes "fifo")))
unfolding is_linked
waiting-IsDistinct = (refl, (refl, (refl, tt)))

query_del_by_conn_lem_example :
    (Irc.queries (query_del_by_conn ascii (some 7) (waiting (codes "fifo"))) ≡ question 2 none ∷ [])
    × (Irc.log (query_del_by_conn ascii (some 7) (waiting (codes "fifo")))
        ≡ (([] ++ freed_all 7 (Irc.queries (waiting (codes "fifo")))) ++ notice 7 2)
          ++ renewed (query_default ascii (waiting (codes "fifo"))) (
              query_default ascii
                (record (waiting (codes "fifo")) { queries = question 2 none ∷ [] })))
query_del_by_conn_lem_example =
    query_del_by_conn_lem ascii 7 (waiting (codes "fifo")) waiting-IsDistinct
