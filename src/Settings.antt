-- ===== src/Settings.antt =====
-- set.c: a list of settings with defaults and evaluators. A node's place in the list stands for the
-- pointer to it. The proofs are in the modules below.
pub mod Nodes
pub mod Write
pub mod Keys
pub mod Evaluators
mod Examples
use Prim.Native.Nat.{bit_and}
use mathlib.Core.Option
use bitl_steam.Common.{
  ℕ, zero, suc, ◌+◌, ◌≡◌, refl, Bool, true, false, not, ◌&&◌, ◌||◌, Option, none, some, List, [],
  ◌∷◌, ◌++◌, Bytes, strcmp_eq, length, ◌==◌, if◌then◌else◌, take, get_elem?,
}
use bitl_steam.Common.Outcome.{Outcome, done, fault, ◌>>=◌}
use bitl_steam.Glib.{Glib}
use bitl_steam.Stdio.{ℤ, pos, scan_int, print_int}
use bitl_steam.Misc.Bools.{bool2int}

-- `set_flags_t`
abbrev pub set_null_ok : ℕ
set_null_ok = 0x0100

abbrev pub set_hidden : ℕ
set_hidden = 0x0200

abbrev pub set_hidden_default : ℕ
set_hidden_default = 0x0800

-- `struct set`. `E` stands for the function pointers `eval` may hold, `D` for `void *data`.
pub record Setting (E D : Type 0) : Type 0 where
  pub owner : D
  pub key : Bytes
  pub old_key : Option Bytes
  pub value : Option Bytes
  pub def : Option Bytes
  pub flags : ℕ
  pub eval : Option E
  pub eval_data : List Bytes

-- What an evaluator answers: `SET_INVALID`, or a pointer that may be null.
pub data Verdict : Type 0 where
  invalid : Verdict
  gives : Option Bytes → Verdict

abbrev pub is_null {ℓ} : {A : Type ℓ} → Option A → Bool
is_null none = true
is_null (some a) = false

module _ {E D : Type 0} where
  abbrev pub has_flag : Setting E D → ℕ → Bool
  has_flag s f = not (bit_and s.flags f == 0)

  -- `set_value`
  abbrev pub set_value : Setting E D → Option Bytes
  set_value s = if is_null s.value then s.def else s.value

  unfoldable pub isvisible : Setting E D → Bool
  isvisible s = not (has_flag s set_hidden || (has_flag s set_hidden_default && is_null s.value))

  -- A write through a pointer to the node at this place.
  abbrev pub modify : List (Setting E D) → ℕ → (Setting E D → Setting E D) → List (Setting E D)
  modify [] i f = []
  modify (s ∷ l) zero f = f s ∷ l
  modify (s ∷ l) (suc i) f = s ∷ modify l i f

-- A new node, as `set_add` makes it.
abbrev pub fresh : {E D : Type 0} → Bytes → Option Bytes → Option E → D → Setting E D
fresh k def eval owner = record {
  owner = owner;
  key = k;
  old_key = none;
  value = none;
  def = def;
  flags = 0;
  eval = eval;
  eval_data = [];
}

-- The writes of `set_add` to a node that there is already.
abbrev pub redefine : {E D : Type 0} → Option Bytes → Option E → D → Setting E D → Setting E D
redefine def eval owner s = record s { def = def; eval = eval; owner = owner }

pub added :
    {E D : Type 0}
    → List (Setting E D)
    → Setting E D
    → (Setting E D → Setting E D)
    → Option (ℕ × Setting E D)
    → List (Setting E D) × ℕ
added l s f none = (l ++ s ∷ [], length l)
added l s f (some (i, t)) = (modify l i f, i)

-- What `set_getstr` makes of the search.
pub value_at : {E D : Type 0} → Option (ℕ × Setting E D) → Option Bytes
value_at none = none
value_at (some (i, s)) = if is_null s.value && is_null s.def then none else set_value s

-- What `set_getint` makes of the text.
pub int_of : Option Bytes → Outcome ℤ
int_of none = done (pos 0)
int_of (some v) = elim (scan_int v) [ none ↦ done (pos 0) | some z ↦ z ]

-- `s->value = v`
abbrev pub assign : {E D : Type 0} → Option Bytes → Setting E D → Setting E D
assign v s = record s { value = v }

-- The place as seen from the node before.
abbrev pub later : {S : Type 0} → ℕ × S → ℕ × S
later (i, s) = (suc i, s)

module _ (g : Glib) {E D : Type 0} where
  -- The test of `set_find`: the key or the former key.
  unfoldable pub matches : Setting E D → Bytes → Bool
  matches s k = g.strcasecmp s.key k || elim s.old_key [ none ↦ false | some o ↦ g.strcasecmp o k ]

  -- `set_find`: the first node that has the key, with its place.
  unfoldable pub find : List (Setting E D) → Bytes → Option (ℕ × Setting E D)
  find [] k = none
  find (s ∷ l) k = if matches s k then some (0, s) else Option.map later (find l k)

  -- `set_add`: the list and the node's place. An old node gets the default and the evaluator.
  unfoldable pub add :
      List (Setting E D) → Bytes → Option Bytes → Option E → D → List (Setting E D) × ℕ
  unfolding added
  add l k def eval owner = added l (fresh k def eval owner) (redefine def eval owner) (find l k)

  unfoldable pub getstr : List (Setting E D) → Bytes → Option Bytes
  unfolding value_at
  getstr l k = value_at (find l k)

  unfoldable pub getint : List (Setting E D) → Bytes → Outcome ℤ
  unfolding int_of
  getint l k = int_of (getstr l k)

  unfoldable pub getbool : List (Setting E D) → Bytes → Outcome ℤ
  getbool l k = elim (getstr l k) [ none ↦ done (pos 0) | some v ↦ bool2int g v ]

  -- `set_del` looks at the key alone.
  unfoldable pub del : List (Setting E D) → Bytes → List (Setting E D)
  del [] k = []
  del (s ∷ l) k = if g.strcasecmp s.key k then l else s ∷ del l k

  -- `while (a->set) set_del(&a->set, a->set->key)` of `account_del`, on fuel.
  unfoldable pub del_all : ℕ → List (Setting E D) → Option (List (Setting E D))
  del_all zero l = none
  del_all (suc f) [] = some []
  del_all (suc f) (s ∷ l) = del_all f (del (s ∷ l) s.key)

-- What `s->value` becomes: null where the new value is the default. `strcmp` of a null pointer is
-- undefined.
unfoldable pub stored : Option Bytes → Option Bytes → Outcome (Option Bytes)
stored none nv = done nv
stored (some d) none = fault
stored (some d) (some v) = done (if strcmp_eq v d then none else some v)

-- What an evaluator does: its answer, the list that it leaves, since it may change and delete other
-- nodes of it and add some, the place of its own node there, and the state `W` of the other objects
-- that it writes to.
pub record Effect (E D W : Type 0) : Type 0 where
  pub verdict : Verdict
  pub list : List (Setting E D)
  pub place : ℕ
  pub world : W

-- The evaluators are functions of their node, the new value, the list and the node's place in it.
module _ (g : Glib) {E D W : Type 0}
    (run : E → Setting E D → Option Bytes → List (Setting E D) → ℕ → W → Effect E D W) where
  -- The end of `set_setstr`: the node gets the value.
  store : Effect E D W → Setting E D → Option Bytes → Outcome (List (Setting E D) × Bool × W)
  store r t nv = stored t.def nv >>= λ v. done (modify r.list r.place (assign v), true, r.world)

  -- `nv = s->eval(s, value)`, and no change of the value where there is no evaluator.
  unfoldable pub effect :
      List (Setting E D) → ℕ → Setting E D → Option Bytes → W → Option E → Effect E D W
  effect l i s v w none = record { verdict = gives v; list = l; place = i; world = w }
  effect l i s v w (some e) = run e s v l i w

  pub answer : List (Setting E D) → ℕ → Setting E D → Option Bytes → W → Effect E D W
  unfolding effect
  answer l i s v w = effect l i s v w s.eval

  -- An answer that is invalid, or null where that is not allowed, is refused. Without an evaluator
  -- the null value has been refused before. The node is read as the evaluator left it; one that it
  -- deleted cannot be read.
  judge : Effect E D W → Verdict → Option (Setting E D) → Outcome (List (Setting E D) × Bool × W)
  judge r invalid t = done (r.list, false, r.world)
  judge r (gives nv) none = fault
  judge r (gives nv) (some t) =
      if is_null nv && not (has_flag t set_null_ok)
      then done (r.list, false, r.world)
      else store r t nv

  unfoldable pub set_found :
      List (Setting E D)
      → Option Bytes
      → W
      → Option (ℕ × Setting E D)
      → Outcome (List (Setting E D) × Bool × W)
  unfolding judge store
  set_found l v w none = done (l, false, w)
  set_found l v w (some (i, s)) =
      let r = answer l i s v w in
      if is_null v && not (has_flag s set_null_ok)
      then done (l, false, w)
      else judge r r.verdict (get_elem? r.list r.place)

  unfoldable pub setstr :
      List (Setting E D) → Bytes → Option Bytes → W → Outcome (List (Setting E D) × Bool × W)
  unfolding set_found
  setstr l k v w = set_found l v w (find g l k)

  -- `g_snprintf` into 24 bytes.
  unfoldable pub setint :
      List (Setting E D) → Bytes → ℤ → W → Outcome (List (Setting E D) × Bool × W)
  setint l k z w = setstr l k (some (take 23 (print_int z))) w

  unfoldable pub reset : List (Setting E D) → Bytes → W → Outcome (List (Setting E D) × Bool × W)
  reset l k w = elim (find g l k) [ none ↦ done (l, false, w) | some (i, s) ↦ setstr l k s.def w ]
