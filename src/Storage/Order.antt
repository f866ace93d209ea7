-- ===== src/Storage/Order.antt =====
-- storage.c: which back end answers.
use bitl_steam.Common.{
  ◌≡◌, ◌≢◌, ◌↔◌, refl, ap, sym, ◌∙◌, Bool, true, false, false≢true, ◌||◌, List, [], ◌∷◌, ◌++◌,
  Bytes, if◌then◌else◌, arith, All, Bool-cases, inl, inr,
}
use bitl_steam.Storage.{
  Status, ok, no_such_user, invalid_password, already_exists, other_error, is_ok, is_no_such_user,
  Backend, Plugin, storage_check_pass, tell_all, remove_loop, storage_remove,
}

abbrev pub is_fine : Status → Bool
is_fine s = is_no_such_user s || is_ok s

unfoldable pub any_ok : List Status → Bool
any_ok [] = false
any_ok (s ∷ l) = is_ok s || any_ok l

-- The last answer that is an error.
unfoldable pub last_error : List Status → Status → Status
last_error [] ret = ret
last_error (s ∷ l) ret = last_error l (if is_fine s then ret else s)

asked_known : (s : Status) → s ≢ no_such_user → is_no_such_user s ≡ false
asked_known ok ne = refl
asked_known no_such_user ne = absurd (ne refl)
asked_known invalid_password ne = refl
asked_known already_exists ne = refl
asked_known other_error ne = refl

last_error-fine :
    (l : List Status) (ret : Status) → All (λ s. is_fine s ≡ true) l → last_error l ret ≡ ret
unfolding last_error
last_error-fine [] ret h = refl
last_error-fine (s ∷ l) ret (f, h) = rw f (last_error-fine l ret h)

last_error-bad :
    (l : List Status) (ret : Status) → is_fine ret ≡ false → is_fine (last_error l ret) ≡ false
unfolding last_error
last_error-bad [] ret h = h
last_error-bad (s ∷ l) ret h = elim (Bool-cases (is_fine s)) [
  | inl e ↦ rw e (last_error-bad l ret h)
  | inr e ↦ rw e (last_error-bad l s e)
]

all_fine : (l : List Status) (ret : Status) → last_error l ret ≡ ok → All (λ s. is_fine s ≡ true) l
unfolding last_error
all_fine [] ret e = tt
all_fine (s ∷ l) ret e = elim (Bool-cases (is_fine s)) [
  | inl f ↦ (f, all_fine l ret (rw f at e))
  | inr f ↦ absurd (false≢true (sym (last_error-bad l s f) ∙ ap is_fine (rw f at e)))
]

module _ {W : Type 0} where
  -- Back ends that do not know the user, and leave the world alone.
  abbrev pub IsStranger : Bytes → Bytes → W → Backend W → Type 0
  IsStranger nick password w st = st.check_pass nick password w ≡ (no_such_user, w)

  -- The first back end that knows the user decides on the password, also if one behind it would decide otherwise.
  pub storage_check_pass_first :
      (pre post : List (Backend W)) (st : Backend W) (nick password : Bytes) (w after : W)
      (s : Status)
      → All (IsStranger nick password w) pre
      → st.check_pass nick password w ≡ (s, after)
      → s ≢ no_such_user
      → storage_check_pass (pre ++ st ∷ post) nick password w ≡ (s, after)
  unfolding storage_check_pass
  storage_check_pass_first [] post st nick password w after s strangers e ne =
      rw (e, asked_known s ne) refl
  storage_check_pass_first (p ∷ pre) post st nick password w after s (h, strangers) e ne =
      rw h (storage_check_pass_first pre post st nick password w after s strangers e ne)

  -- What the back ends answer to `remove`, one after the other.
  unfoldable pub answers : List (Backend W) → Bytes → Bytes → W → List Status × W
  answers [] nick password w = ([], w)
  answers (st ∷ l) nick password w =
      let r = st.remove nick password w in
      let rest = answers l nick password r.1 in (r.0 ∷ rest.0, rest.1)

  remove_loop-answers :
      (l : List (Backend W)) (nick password : Bytes) (ret : Status) (any : Bool) (w : W)
      → let a = answers l nick password w in
        remove_loop l nick password ret any w ≡ (last_error a.0 ret, any || any_ok a.0, a.1)
  unfolding remove_loop answers last_error any_ok
  remove_loop-answers [] nick password ret any w = ap (λ b. (ret, b, w)) (ground arith)
  remove_loop-answers (st ∷ l) nick password ret any w =
      let r = st.remove nick password w in
      let a = answers l nick password r.1 in
      let now = if is_fine r.0 then ret else r.0 in
      remove_loop-answers l nick password now (any || is_ok r.0) r.1
      ∙ ap (λ b. (last_error a.0 now, b, a.1)) (ground arith)

  -- `storage_remove` asks every back end, whatever the ones before answered. It returns OK exactly
  -- if none of them had another problem than that it does not know the user, and else the last
  -- problem; and the plugins hear of it exactly if a back end removed the user.
  pub storage_remove_lem :
      (storage : List (Backend W)) (plugins : List (Plugin W)) (nick password : Bytes) (w : W)
      → let a = answers storage nick password w in
        let r = storage_remove storage plugins nick password w in
        (r.0 ≡ last_error a.0 ok)
        × ((r.0 ≡ ok) ↔ All (λ s. is_fine s ≡ true) a.0)
        × (any_ok a.0 ≡ true → r.1 ≡ tell_all (λ p. p.storage_remove) plugins nick a.1)
        × (any_ok a.0 ≡ false → r.1 ≡ a.1)
  unfolding storage_remove
  storage_remove_lem storage plugins nick password w =
      let a = answers storage nick password w in
      rw (remove_loop-answers storage nick password ok false w)
        (refl, (all_fine a.0 ok, last_error-fine a.0 ok), λ h. rw h refl, λ h. rw h refl)
