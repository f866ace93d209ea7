-- ===== src/Storage/Save.antt =====
-- storage.c: the back end that everything is saved to.
use bitl_steam.Common.{
  ◌≡◌, refl, sym, Bool, true, none, some, List, [], ◌∷◌, ◌++◌, Bytes, Bool-cases, inl, inr,
  strcmp_eq, strcmp_eq_iff,
}
use bitl_steam.Common.Outcome.{done, fault}
use bitl_steam.Storage.{
  Status, tell_all, Irc, Backend, Plugin, find_backend, started, storage_init_single, init_primary,
  storage_init, save_of, first_save, save_with, storage_save,
}

module _ {W : Type 0} where
  find_backend-name :
      (l : List (Backend W)) (name : Bytes) (st : Backend W)
      → find_backend l name ≡ some st
      → st.name ≡ name
  unfolding find_backend
  find_backend-name [] name st e = cc
  find_backend-name (b ∷ l) name st e = elim (Bool-cases (strcmp_eq b.name name)) [
    | inl h ↦
        (let same : b ≡ st = (let e = rw h at e in cc) in
          rw (sym same) ((strcmp_eq_iff b.name name).0 h))
    | inr h ↦ find_backend-name l name st (rw h at e)
  ]

  -- With a primary back end that is registered, `storage_init` gives a list that starts with it.
  init_found :
      (registered : List (Backend W)) (xml : Backend W) (primary : Bytes) (migrate : List Bytes)
      (w : W) (st : Backend W)
      → find_backend (registered ++ xml ∷ []) primary ≡ some st
      → (rest : List (Backend W)) × (after : W) × (storage_init registered xml primary migrate w
          ≡ done (st ∷ rest, after))
  unfolding storage_init storage_init_single started init_primary
  init_found registered xml primary migrate w st e = rw e (_, _, refl)

  -- What the function of the back end answers, and the world after it and after the plugins.
  abbrev pub saved_by :
      (Irc → Bool → W → Status × W) → List (Plugin W) → Irc → Bool → W → Status × W
  saved_by f plugins irc overwrite w =
      let r = f irc overwrite w in (r.0, tell_all (λ p. p.storage_save) plugins irc r.1)

  save_first :
      (st : Backend W) (rest : List (Backend W)) (plugins : List (Plugin W)) (irc : Irc)
      (overwrite : Bool) (w : W) (f : Irc → Bool → W → Status × W)
      → irc.identified ≡ true
      → st.save ≡ some f
      → let r = saved_by f plugins irc overwrite w in
        storage_save (st ∷ rest) plugins irc none overwrite w ≡ done (r.0, irc, r.1)
  unfolding storage_save save_with first_save save_of
  save_first st rest plugins irc overwrite w f id e = rw (id, e) refl

  save_missing :
      (st : Backend W) (rest : List (Backend W)) (plugins : List (Plugin W)) (irc : Irc)
      (overwrite : Bool) (w : W)
      → irc.identified ≡ true
      → st.save ≡ none
      → storage_save (st ∷ rest) plugins irc none overwrite w ≡ fault
  unfolding storage_save save_with first_save save_of
  save_missing st rest plugins irc overwrite w id e = rw (id, e) refl

  -- Whether the program can save depends on its primary back end, by `storage_init` for a name that is configured: with a back end that
  -- can save, the back end saves a user who is identified, and its answer is returned. With one that cannot,
  -- `storage_init` succeeds, and saving calls a null pointer. With a name that no back end has,
  -- `storage_init` reads a null pointer itself.
  pub storage_init-storage_save :
      (registered : List (Backend W)) (xml : Backend W) (primary : Bytes) (migrate : List Bytes)
      (plugins : List (Plugin W)) (irc : Irc) (overwrite : Bool) (w : W)
      → irc.identified ≡ true
      → ((st : Backend W) (f : Irc → Bool → W → Status × W)
          → find_backend (registered ++ xml ∷ []) primary ≡ some st
          → st.save ≡ some f
          → (storage : List (Backend W)) × (begun : W) × (storage_init registered xml primary
                migrate w
              ≡ done (storage, begun))
            × (let r = saved_by f plugins irc overwrite begun in
                storage_save storage plugins irc none overwrite begun ≡ done (r.0, irc, r.1)))
        × ((st : Backend W)
            → find_backend (registered ++ xml ∷ []) primary ≡ some st
            → st.save ≡ none
            → (storage : List (Backend W)) × (begun : W) × (storage_init registered xml primary
                  migrate w
                ≡ done (storage, begun))
              × (storage_save storage plugins irc none overwrite begun ≡ fault))
        × (find_backend (registered ++ xml ∷ []) primary ≡ none
            → storage_init registered xml primary migrate w ≡ fault)
  storage_init-storage_save registered xml primary migrate plugins irc overwrite w id = (
    λ st f e saves.
        let (rest, begun, run) = init_found registered xml primary migrate w st e in
        (st ∷ rest, begun, run, save_first st rest plugins irc overwrite begun f id saves),
    λ st e missing.
        let (rest, begun, run) = init_found registered xml primary migrate w st e in
        (st ∷ rest, begun, run, save_missing st rest plugins irc overwrite begun id missing),
    λ e.
        unfold storage_init in
        unfold storage_init_single in unfold started in unfold init_primary in rw e refl,
  )
