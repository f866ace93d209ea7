-- ===== src/Account/Tags/Examples.antt =====
-- protocols/account.c: a second account of the same network.
use bitl_steam.Common.{ℕ, ◌≡◌, ◌≤◌, ◌<◌, refl, none, some, List, [], ◌∷◌, ◌++◌, Bytes, codes}
use bitl_steam.Stdio.{print_nat, print_digits}
use bitl_steam.Glib.Ascii.{ascii}
use bitl_steam.Irc.Channels.{strstr, starts_with}
use bitl_steam.Account.Tags.{Account, account_by_tag, guess, numbered, free_tag, account_add}
use bitl_steam.Account.Tags.Unique.{UniqueTags, account_add_lem}

abbrev one : List Account
one =
    record {
      prpl = codes "jabber";
      user = codes "a@gmail.com";
      pass = [];
      tag = some (codes "gtalk");
    }
    ∷ []

tags : free_tag ascii one (guess (codes "jabber") (codes "b@gmail.com")) ≡ codes "gtalk2"
unfolding free_tag guess numbered account_by_tag strstr starts_with print_nat print_digits
tags = refl

one_unique : UniqueTags ascii one
unfolding account_by_tag
one_unique = (λ t e. refl, tt)

account_add_lem_example :
    UniqueTags ascii (account_add ascii one (codes "jabber") (codes "b") [])
    × ((t : Bytes) (a : Account)
        → account_by_tag ascii one t ≡ some a
        → account_by_tag ascii (account_add ascii one (codes "jabber") (codes "b") []) t ≡ some a)
    × ((j : ℕ)
        → 2 ≤ j
        → j < 10000
        → account_by_tag ascii one (guess (codes "jabber") (codes "b") ++ print_nat j) ≡ none
        → (a : Account) × (account_by_tag ascii
              (account_add ascii one (codes "jabber") (codes "b") [])
              (free_tag ascii one (guess (codes "jabber") (codes "b")))
            ≡ some a)
          × (a.user ≡ codes "b")
          × (a.tag ≡ some (free_tag ascii one (guess (codes "jabber") (codes "b")))))
account_add_lem_example = account_add_lem ascii one (codes "jabber") (codes "b") [] one_unique
