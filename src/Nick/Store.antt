-- ===== src/Nick/Store.antt =====
-- nick.c: the nicks that are stored for an account's buddies.
use bitl_steam.Common.{
  is_some, ◌≡◌, ◌≢◌, refl, Bool, true, false, some, Bytes, arith, strcmp_eq, strcmp_eq_iff,
  if◌then◌else◌, take,
}
use bitl_steam.Glib.{HashTable}
use bitl_steam.Nick.{max_nick_length, clean_handle, nick_strip}

module _ {T : Type 0} (h : HashTable T Bytes) where
  open h use {lookup, replace, remove, lookup-replace, lookup-remove}

  -- `strncpy` into a buffer of `MAX_NICK_LENGTH + 1` bytes that ends in a zero.
  pub nick_set_raw : T → Bytes → Bytes → T
  nick_set_raw nicks handle nick =
      replace nicks (clean_handle handle) (nick_strip (take max_nick_length nick))

  pub nick_saved : T → Bytes → Bool
  nick_saved nicks handle = is_some (lookup nicks (clean_handle handle))

  -- The handle is looked up as it is.
  pub nick_del : T → Bytes → T
  nick_del nicks handle = remove nicks handle

  -- A nick that is set is stored, for each handle that is the same but for case and spaces, and the
  -- nicks of other handles are as before.
  pub lookup-nick_set_raw :
      (nicks : T) (handle other nick : Bytes)
      → lookup (nick_set_raw nicks handle nick) (clean_handle other) ≡ (
          if strcmp_eq (clean_handle handle) (clean_handle other)
          then some (nick_strip (take max_nick_length nick))
          else lookup nicks (clean_handle other))
  unfolding nick_set_raw
  lookup-nick_set_raw nicks handle other nick = lookup-replace nicks _ _ _

  -- Deleting forgets the nick of a handle in lower case without spaces.
  pub nick_saved-nick_del :
      (nicks : T) (handle : Bytes)
      → clean_handle handle ≡ handle
      → nick_saved (nick_del nicks handle) handle ≡ false
  unfolding nick_saved nick_del
  nick_saved-nick_del nicks handle e = ground (
    arith,
    lookup-remove nicks handle (clean_handle handle),
    strcmp_eq_iff handle (clean_handle handle),
  )

  -- The nick of a handle with a capital or a space stays stored when it is deleted.
  pub nick_del_misses :
      (nicks : T) (handle nick : Bytes)
      → clean_handle handle ≢ handle
      → nick_saved (nick_del (nick_set_raw nicks handle nick) handle) handle ≡ true
  unfolding nick_saved nick_del nick_set_raw
  nick_del_misses nicks handle nick ne =
      let k = clean_handle handle in
      let v = nick_strip (take max_nick_length nick) in
      ground (
        arith,
        lookup-remove (replace nicks k v) handle k,
        lookup-replace nicks k k v,
        (strcmp_eq_iff handle k).0,
        (strcmp_eq_iff k k).1 refl,
      )
