-- ===== src/Storage/Examples.antt =====
-- storage.c: two back ends. The world is the list of users that the second one has.
use bitl_steam.Common.{
  ◌≡◌, ◌↔◌, refl, Bool, true, false, none, some, List, [], ◌∷◌, ◌++◌, Bytes, codes, strcmp_eq,
  if◌then◌else◌, All,
}
use bitl_steam.Common.Outcome.{done, fault}
use bitl_steam.Storage.{
  Status, ok, no_such_user, invalid_password, Irc, Backend, find_backend, tell_all, save_with,
  first_save, save_of, storage_init, storage_save, storage_remove,
}
use bitl_steam.Storage.Order.{answers, any_ok, is_fine, last_error, storage_remove_lem}
use bitl_steam.Storage.Save.{saved_by, storage_init-storage_save}

abbrev Users : Type 0
Users = List Bytes

-- It knows nobody and cannot save.
abbrev text : Backend Users
text = record {
  name = codes "text";
  init = none;
  save = none;
  check_pass = λ nick password w. (no_such_user, w);
  load = λ irc password w. (no_such_user, irc, w);
  remove = λ nick password w. (no_such_user, w);
}

-- Everybody has the password "x".
abbrev xml : Backend Users
xml = record {
  name = codes "xml";
  init = none;
  save = some (λ irc overwrite w. (ok, codes "saved" ∷ w));
  check_pass =
      λ nick password w. (if strcmp_eq password (codes "x") then ok else invalid_password, w);
  load = λ irc password w. (ok, irc, w);
  remove = λ nick password w. (ok, []);
}

abbrev user : Irc
user = record { password = none; identified = true }

storage_remove_lem_example :
    let a = answers (text ∷ xml ∷ []) (codes "me") (codes "x") (codes "me" ∷ []) in
    let r = storage_remove (text ∷ xml ∷ []) [] (codes "me") (codes "x") (codes "me" ∷ []) in
    (r.0 ≡ last_error a.0 ok)
    × ((r.0 ≡ ok) ↔ All (λ s. is_fine s ≡ true) a.0)
    × (any_ok a.0 ≡ true → r.1 ≡ tell_all (λ p. p.storage_remove) [] (codes "me") a.1)
    × (any_ok a.0 ≡ false → r.1 ≡ a.1)
storage_remove_lem_example =
    storage_remove_lem (text ∷ xml ∷ []) [] (codes "me") (codes "x") (codes "me" ∷ [])

storage_init-storage_save_example :
    ((st : Backend Users) (f : Irc → Bool → Users → Status × Users)
      → find_backend ((text ∷ []) ++ xml ∷ []) (codes "text") ≡ some st
      → st.save ≡ some f
      → (storage : List (Backend Users)) × (begun : Users) × (storage_init
            (text ∷ [])
            xml
            (codes "text")
            []
            []
          ≡ done (storage, begun))
        × (let r = saved_by f [] user true begun in
            storage_save storage [] user none true begun ≡ done (r.0, user, r.1)))
    × ((st : Backend Users)
        → find_backend ((text ∷ []) ++ xml ∷ []) (codes "text") ≡ some st
        → st.save ≡ none
        → (storage : List (Backend Users)) × (begun : Users) × (storage_init
              (text ∷ [])
              xml
              (codes "text")
              []
              []
            ≡ done (storage, begun))
          × (storage_save storage [] user none true begun ≡ fault))
    × (find_backend ((text ∷ []) ++ xml ∷ []) (codes "text") ≡ none
        → storage_init (text ∷ []) xml (codes "text") [] [] ≡ fault)
storage_init-storage_save_example =
    storage_init-storage_save (text ∷ []) xml (codes "text") [] [] user true [] refl

saved :
    storage_save (xml ∷ []) [] user (some (codes "x")) false []
    ≡ done (ok, user, codes "saved" ∷ [])
unfolding storage_save tell_all save_with first_save save_of
saved = refl

-- The function of `xml`.
abbrev saves : Irc → Bool → Users → Status × Users
saves irc overwrite w = (ok, codes "saved" ∷ w)
