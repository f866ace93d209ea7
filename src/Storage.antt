-- ===== src/Storage.antt =====
-- storage.c: the back ends that accounts of users are kept in.
pub mod Order
pub mod Save
mod Examples
use bitl_steam.Common.{
  is_some, ℕ, Bool, true, false, not, ◌&&◌, ◌||◌, Option, none, some, List, [], ◌∷◌, ◌++◌, Bytes,
  strcmp_eq, if◌then◌else◌,
}
use bitl_steam.Common.Outcome.{Outcome, done, fault, ◌>>=◌}

pub data Status : Type 0 where
  ok no_such_user invalid_password already_exists other_error : Status

abbrev pub is_ok : Status → Bool
is_ok ok = true
is_ok _ = false

abbrev pub is_no_such_user : Status → Bool
is_no_such_user no_such_user = true
is_no_such_user _ = false

-- The part of `irc_t` that the storage uses: the password, and the flag `USTATUS_IDENTIFIED`.
pub record Irc : Type 0 where
  pub password : Option Bytes
  pub identified : Bool

-- `storage_t`: the functions of a back end, over the state of the world, which a pointer to a function can be
-- missing from. A function that gets the `irc_t` may change it.
pub record Backend (W : Type 0) : Type 0 where
  pub name : Bytes
  pub init : Option (W → W)
  pub check_pass : Bytes → Bytes → W → Status × W
  pub load : Irc → Bytes → W → Status × Irc × W
  pub save : Option (Irc → Bool → W → Status × W)
  pub remove : Bytes → Bytes → W → Status × W

-- `irc_plugin_t`: what a plugin wants to hear of the storage.
pub record Plugin (W : Type 0) : Type 0 where
  pub storage_load : Option (Irc → W → W)
  pub storage_save : Option (Irc → W → W)
  pub storage_remove : Option (Bytes → W → W)

module _ {W : Type 0} where
  -- `if( f ) f(...)`
  unfoldable pub call : Option (W → W) → W → W
  call none w = w
  call (some f) w = f w

  unfoldable pub find_backend : List (Backend W) → Bytes → Option (Backend W)
  find_backend [] name = none
  find_backend (st ∷ l) name = if strcmp_eq st.name name then some st else find_backend l name

  unfoldable pub started : Option (Backend W) → W → Option (Backend W) × W
  started none w = (none, w)
  started (some st) w = (some st, call st.init w)

  unfoldable pub storage_init_single : List (Backend W) → Bytes → W → Option (Backend W) × W
  storage_init_single backends name w = started (find_backend backends name) w

  -- The back ends that accounts are moved from; unknown ones are left out.
  unfoldable pub added : Option (Backend W) → List (Backend W) → List (Backend W)
  added none l = l
  added (some st) l = st ∷ l

  unfoldable pub init_migrate : List (Backend W) → List Bytes → W → List (Backend W) × W
  init_migrate backends [] w = ([], w)
  init_migrate backends (name ∷ l) w =
      let st = storage_init_single backends name w in
      let rest = init_migrate backends l st.1 in (added st.0 rest.0, rest.1)

  -- `storage == NULL && storage->save == NULL`: the second test is reached for a null pointer only.
  unfoldable pub init_primary :
      List (Backend W) → List Bytes → Option (Backend W) × W → Outcome (List (Backend W) × W)
  init_primary backends migrate (none, w) = fault
  init_primary backends migrate (some st, w) =
      let rest = init_migrate backends migrate w in done (st ∷ rest.0, rest.1)

  -- `registered` are the back ends before `storage_xml` is registered behind them.
  unfoldable pub storage_init :
      List (Backend W) → Backend W → Bytes → List Bytes → W → Outcome (List (Backend W) × W)
  storage_init registered storage_xml primary migrate w =
      let backends = registered ++ storage_xml ∷ [] in
      init_primary backends migrate (storage_init_single backends primary w)

  unfoldable pub storage_check_pass : List (Backend W) → Bytes → Bytes → W → Status × W
  storage_check_pass [] nick password w = (no_such_user, w)
  storage_check_pass (st ∷ l) nick password w =
      let r = st.check_pass nick password w in
      let rest = storage_check_pass l nick password r.1 in if is_no_such_user r.0 then rest else r

  -- `if( p->f ) p->f( a )` for each plugin.
  unfoldable pub tell : {A : Type 0} → Option (A → W → W) → A → W → W
  tell none a w = w
  tell (some f) a w = f a w

  unfoldable pub tell_all :
      {A : Type 0} → (Plugin W → Option (A → W → W)) → List (Plugin W) → A → W → W
  tell_all hook [] a w = w
  tell_all hook (p ∷ l) a w = tell_all hook l a (tell (hook p) a w)

  unfoldable pub load_first :
      List (Backend W) → List (Plugin W) → Irc → Bytes → W → Status × Irc × W
  load_first [] plugins irc password w = (no_such_user, irc, w)
  load_first (st ∷ l) plugins irc password w =
      let r = st.load irc password w in
      let rest = load_first l plugins r.1 password r.2 in
      if is_ok r.0
      then (ok, r.1, tell_all (λ p. p.storage_load) plugins r.1 r.2)
      else if is_no_such_user r.0
      then rest
      else r

  -- `irc` may be null only for back ends that allow it; here it is given.
  unfoldable pub storage_load :
      List (Backend W) → List (Plugin W) → Irc → Bytes → W → Status × Irc × W
  storage_load storage plugins irc password w =
      if irc.identified then (other_error, irc, w) else load_first storage plugins irc password w

  -- A call through a pointer that is null is undefined.
  unfoldable pub save_of :
      Option (Irc → Bool → W → Status × W) → Irc → Bool → W → Outcome (Status × W)
  save_of none irc overwrite w = fault
  save_of (some f) irc overwrite w = done (f irc overwrite w)

  -- `global.storage->data->save(...)`; the list is not empty when the program runs.
  unfoldable pub first_save : List (Backend W) → Irc → Bool → W → Outcome (Status × W)
  first_save [] irc overwrite w = fault
  first_save (st ∷ l) irc overwrite w = save_of st.save irc overwrite w

  -- The password is in `irc` only while the back end saves it.
  unfoldable pub save_with :
      List (Backend W) → List (Plugin W) → Irc → Bool → W → Outcome (Status × W)
  save_with storage plugins irc overwrite w = first_save storage irc overwrite w >>= λ r.
      done (r.0, tell_all (λ p. p.storage_save) plugins irc r.1)

  unfoldable pub storage_save :
      List (Backend W)
      → List (Plugin W)
      → Irc
      → Option Bytes
      → Bool
      → W
      → Outcome (Status × Irc × W)
  storage_save storage plugins irc none overwrite w =
      if irc.identified
      then (save_with storage plugins irc overwrite w >>= λ r. done (r.0, irc, r.1))
      else done (no_such_user, irc, w)
  storage_save storage plugins irc (some password) overwrite w =
      if is_some irc.password || overwrite
      then done (other_error, irc, w)
      else (save_with storage plugins (record irc { password = some password }) overwrite w >>= λ r.
          done (r.0, record irc { password = none }, r.1))

  -- The loop over the back ends: the last status that is an error, and whether one of them removed the user.
  unfoldable pub remove_loop :
      List (Backend W) → Bytes → Bytes → Status → Bool → W → Status × Bool × W
  remove_loop [] nick password ret any w = (ret, any, w)
  remove_loop (st ∷ l) nick password ret any w =
      let r = st.remove nick password w in
      remove_loop l nick password (if is_no_such_user r.0 || is_ok r.0 then ret else r.0)
        (any || is_ok r.0) r.1

  unfoldable pub storage_remove :
      List (Backend W) → List (Plugin W) → Bytes → Bytes → W → Status × W
  storage_remove storage plugins nick password w =
      let r = remove_loop storage nick password ok false w in
      (r.0, if r.1 then tell_all (λ p. p.storage_remove) plugins nick r.2 else r.2)
