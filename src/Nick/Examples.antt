-- ===== src/Nick/Examples.antt =====
-- nick.c: runs, and the theorems at concrete inputs.
use bitl_steam.Common.{
  ℕ, zero, suc, ◌<◌, ◌≤◌, ◌≡◌, refl, Bool, true, false, none, some, List, [], ◌++◌, Bytes, codes,
  arith, replicate, length, strcmp_eq,
}
use bitl_steam.Common.Outcome.{done}
use bitl_steam.Glib.Ascii.{ascii}
use bitl_steam.Glib.Assoc.{assoc}
use bitl_steam.Nick.{max_nick_length, is_nick_char, nick_strip, nick_ok, lower, nick_lc, is_free}
use bitl_steam.Nick.Strip.{stripped, nick_strip_lem}
use bitl_steam.Nick.Chars.{IsNickText}
use bitl_steam.Nick.Gen.{
  Buddy, nick_gen, directive, keyword, read_number, picked, append_part, gen_loop, resume,
  converted,
}
use bitl_steam.Nick.Gen.Total.{FormatFits, Ends, nick_gen_total}
use bitl_steam.Nick.Get.{nick_get, nick_get_free}

strip_digit : nick_strip (codes "1 two, three!") ≡ codes "_1twothree"
unfolding nick_strip is_nick_char
strip_digit = refl

nick_strip_lem_example : nick_strip (codes "1 two") ≡ stripped (codes "1two")
unfolding is_nick_char
nick_strip_lem_example = nick_strip_lem (codes "1 two")

lower_brackets : nick_lc (codes "[WvG]") ≡ done (true, codes "{wvg}")
unfolding nick_lc lower
lower_brackets = refl

wvg-IsNickText : IsNickText (codes "[WvG]")
unfolding is_nick_char
wvg-IsNickText = ground arith

-- One nick is in use.
abbrev busy : Bytes → Bool
busy n = strcmp_eq n (codes "wilmer")

busy_below_one : (j : ℕ) → j < 1 → is_free busy (codes "wilmer" ++ replicate j b'_') ≡ false
unfolding is_free nick_ok is_nick_char
busy_below_one zero h = refl
busy_below_one (suc j) h = absurd (omega arith)

abbrev nobody : List (Bytes × Bytes)
nobody = []

abbrev wilmer : Buddy
wilmer = record {
  handle = codes "wilmer@gaast.net";
  nick = none;
  fullname = some (codes "Wilmer v. d. Gaast");
  group_name = none;
  account_tag = some (codes "jabber");
}

gen_nick :
    nick_gen ascii (λ s. some s) wilmer (some (codes "%-@nick")) ≡ done (some (codes "wilmer"))
unfolding nick_gen directive keyword read_number picked append_part gen_loop resume converted
    is_nick_char
gen_nick = refl

gen_first_name :
    nick_gen ascii (λ s. some s) wilmer (some (codes "%3first_name|%account"))
    ≡ done (some (codes "Wil|jabber"))
unfolding nick_gen directive keyword read_number picked append_part gen_loop resume converted
    is_nick_char
gen_first_name = refl

format-NumbersFit : FormatFits (some (codes "%-@nick"))
unfolding read_number
format-NumbersFit = omega arith

nick_gen_total_example : Ends (nick_gen ascii (λ s. some s) wilmer (some (codes "%-@nick")))
nick_gen_total_example =
    nick_gen_total ascii (λ s. some s) wilmer (some (codes "%-@nick")) format-NumbersFit

nick_get_free_example :
    (r : Bytes × Bool) × (nick_get ascii
        (λ s. some s)
        assoc
        busy
        (codes "xx1")
        true
        nobody
        wilmer
        (some (codes "%-@nick"))
      ≡ done r)
    × (r.1 ≡ false → is_free busy r.0 ≡ true)
    × (length r.0 ≤ max_nick_length)
nick_get_free_example =
    nick_get_free ascii (λ s. some s) assoc busy (codes "xx1") true nobody wilmer
      (some (codes "%-@nick")) (omega arith) format-NumbersFit
