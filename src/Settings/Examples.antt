-- ===== src/Settings/Examples.antt =====
-- set.c: runs, and the theorems at concrete settings.
use bitl_steam.Common.{
  ℕ, ◌≡◌, ◌≢◌, refl, true, false, Option, none, some, List, [], ◌∷◌, Bytes, codes,
}
use bitl_steam.Common.Outcome.{done, fault}
use bitl_steam.Glib.Ascii.{ascii}
use bitl_steam.Stdio.{pos, print_int}
use bitl_steam.Settings.{
  Setting, invalid, matches, find, getstr, setstr, answer, effect, set_found, Effect, stored,
  setint, fresh, assign, set_null_ok,
}
use bitl_steam.Settings.Write.{Takes, getstr-setstr, place}
use bitl_steam.Settings.Keys.{IsUnique}
use bitl_steam.Settings.Evaluators.{eval_int}

-- One evaluator, `set_eval_int`, and no state behind it.
abbrev run :
    Unit {0}
    → Setting (Unit {0}) (Unit {0})
    → Option Bytes
    → List (Setting (Unit {0}) (Unit {0}))
    → ℕ
    → Unit {0}
    → Effect (Unit {0}) (Unit {0}) (Unit {0})
run e s none l i w = record { verdict = invalid; list = l; place = i; world = w }
run e s (some v) l i w = record { verdict = eval_int v; list = l; place = i; world = w }

abbrev Settings : Type 0
Settings = List (Setting (Unit {0}) (Unit {0}))

abbrev port : Setting (Unit {0}) (Unit {0})
port = fresh (codes "port") (some (codes "6667")) (some tt) tt

abbrev nick_format : Setting (Unit {0}) (Unit {0})
nick_format = record (fresh {E = Unit {0}} (codes "nick_format") (some (codes "%nick")) none tt) {
  flags = set_null_ok;
}

abbrev two : Settings
two = port ∷ nick_format ∷ []

abbrev two_set : Settings
two_set = assign (some (codes "7000")) port ∷ nick_format ∷ []

set_port : setstr ascii run two (codes "PORT") (some (codes "7000")) tt ≡ done (two_set, true, tt)
unfolding setstr set_found find matches answer effect stored eval_int
set_port = refl

set_port_to_default :
    setstr ascii run two_set (codes "port") (some (codes "6667")) tt ≡ done (two, true, tt)
unfolding setstr set_found find matches answer effect stored eval_int
set_port_to_default = refl

set_port_wrong : setstr ascii run two (codes "port") (some (codes "70x")) tt ≡ done (two, false, tt)
unfolding setstr set_found find matches answer effect stored eval_int
set_port_wrong = refl

getstr-setstr_example :
    (i : ℕ) × (s : Setting (Unit {0}) (Unit {0})) × (t : Setting (Unit {0}) (Unit {0}))
    × (nv : Option Bytes) × Takes ascii run two (codes "PORT") (some (codes "7000")) tt i s t nv
    × (let r = answer ascii run two i s (some (codes "7000")) tt in
        ((k' : Bytes) → find ascii r.list k' ≡ some (r.place, t) → getstr ascii two_set k' ≡ nv)
        × ((k' : Bytes)
            → place ascii r.list k' ≢ some r.place
            → getstr ascii two_set k' ≡ getstr ascii r.list k')
        × (s.eval ≡ none
            → (nv ≡ some (codes "7000"))
              × (getstr ascii two_set (codes "PORT") ≡ some (codes "7000"))
              × ((k' : Bytes)
                  → place ascii two k' ≢ some i
                  → getstr ascii two_set k' ≡ getstr ascii two k')))
getstr-setstr_example = getstr-setstr ascii run two (codes "PORT") (some (codes "7000")) tt set_port

set_null_faults : setstr ascii run two (codes "nick_format") none tt ≡ fault
unfolding setstr set_found find matches answer effect stored
set_null_faults = refl

find_format : find ascii two (codes "nick_format") ≡ some (1, nick_format)
unfolding find matches
find_format = refl

two-IsUnique : IsUnique ascii two
two-IsUnique = ((refl, tt), (tt, tt))

set_port_number : setint ascii run two (codes "port") (pos 7000) tt ≡ done (two_set, true, tt)
unfolding setint setstr set_found find matches answer effect stored eval_int print_int
set_port_number = refl
