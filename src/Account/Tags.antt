-- ===== src/Account/Tags.antt =====
-- protocols/account.c: the list of accounts and their tags.
pub mod Unique
mod Examples
use bitl_steam.Common.{
  ℕ, zero, suc, ◌+◌, Bool, true, false, ◌&&◌, ◌||◌, Option, none, some, is_some, List, [], ◌∷◌,
  ◌++◌, Bytes, codes, is_digit, strcmp_eq, if◌then◌else◌,
}
use bitl_steam.Stdio.{print_nat}
use bitl_steam.Glib.{Glib}
use bitl_steam.Irc.Channels.{strstr}

-- `account_t`, as far as the tags need it.
pub record Account : Type 0 where
  pub prpl : Bytes
  pub user : Bytes
  pub pass : Bytes
  pub tag : Option Bytes

abbrev pub starts_digit : Bytes → Bool
starts_digit [] = false
starts_digit (c ∷ s) = is_digit c

-- The tag that is tried first, from the protocol's name and the user's.
unfoldable pub guess : Bytes → Bytes → Bytes
guess prpl user =
    if strcmp_eq prpl (codes "oscar")
    then (if starts_digit user then codes "icq" else codes "aim")
    else if strcmp_eq prpl (codes "jabber")
    then (if strstr user (codes "@gmail.com") || strstr user (codes "@googlemail.com")
        then codes "gtalk"
        else if strstr user (codes "@chat.facebook.com")
        then codes "fb"
        else prpl)
    else prpl

module _ (g : Glib) where
  abbrev pub has_tag : Account → Bytes → Bool
  has_tag a tag = elim a.tag [ none ↦ false | some t ↦ g.strcasecmp tag t ]

  unfoldable pub account_by_tag : List Account → Bytes → Option Account
  account_by_tag [] tag = none
  account_by_tag (a ∷ l) tag =
      let rest = account_by_tag l tag in if has_tag a tag then some a else rest

  -- The loop over the numbers from `i` on: what is in the buffer after it.
  unfoldable pub numbered : List Account → Bytes → ℕ → ℕ → Bytes → Bytes
  numbered l tag zero i buffer = buffer
  numbered l tag (suc n) i buffer =
      let text = tag ++ print_nat i in
      let rest = numbered l tag n (i + 1) text in
      if is_some (account_by_tag l text) then rest else text

  unfoldable pub free_tag : List Account → Bytes → Bytes
  free_tag l tag = if is_some (account_by_tag l tag) then numbered l tag 9998 2 tag else tag

  -- `set_eval_account` refuses a tag that another account has: then the account has none.
  unfoldable pub tag_set : List Account → Bytes → Option Bytes
  tag_set l tag = if is_some (account_by_tag l tag) then none else some tag

  abbrev pub new_account : List Account → Bytes → Bytes → Bytes → Account
  new_account l prpl user pass = record {
    prpl = prpl;
    user = user;
    pass = pass;
    tag = tag_set l (free_tag l (guess prpl user));
  }

  unfoldable pub account_add : List Account → Bytes → Bytes → Bytes → List Account
  account_add l prpl user pass = l ++ new_account l prpl user pass ∷ []
