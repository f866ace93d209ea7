-- ===== src/Irc/Channels/Examples.antt =====
-- irc_channel.c: a list of two channels.
use bitl_steam.Common.{
  ◌≡◌, ◌≢◌, ◌↔◌, ◌⊎◌, ◌<◌, ℕ, refl, true, false, none, some, List, [], ◌∷◌, codes, arith, All,
  InString, get_elem?, get_or, ap,
}
use bitl_steam.Common.Outcome.{done, fault}
use bitl_steam.Stdio.{pos, negsuc, scan_int}
use bitl_steam.Glib.Sorted.{slist}
use bitl_steam.Irc.Name.{irc_channel_name_ok, case_map}
use bitl_steam.Irc.Channel.{Channel, Place}
use bitl_steam.Irc.Channels.{irc_channel_by_name, irc_channel_new, irc_channel_get, fresh_channel}
use bitl_steam.Irc.Channels.Find.{IsNamed, NamesDiffer, irc_channel_new_lem}
use bitl_steam.Irc.Channels.Partial.{IsOnly, IsText, irc_channel_get_lem}

abbrev place : Place
place = record { user = 1; root = 2; key = λ p. codes "root"; ops = codes "both"; shutdown = false }

abbrev bee : Channel
bee = record { self = 7; name = codes "#b"; joined = false; temp = false; topic = none; users = [] }

abbrev hive : Channel
hive = record {
  self = 8;
  name = codes "#h";
  joined = false;
  temp = false;
  topic = none;
  users = [];
}

abbrev channels : List Channel
channels = bee ∷ hive ∷ []

two-InString : (c : ℕ) → 0 < c → c < 256 → All InString (b'#' ∷ c ∷ [])
two-InString c low high = ((omega arith, omega arith), ((low, high), tt))

channels-IsNamed : All IsNamed channels
unfolding irc_channel_name_ok
channels-IsNamed = (
  (two-InString b'b' (omega arith) (omega arith), refl),
  ((two-InString b'h' (omega arith) (omega arith), refl), tt),
)

channels-NamesDiffer : NamesDiffer channels
unfolding case_map
channels-NamesDiffer =
    ((λ e. let second : ◌≡◌ {A = ℕ} 98 104 = ap (λ l. get_or l 1 0) e in omega arith, tt), (tt, tt))

ok_b : irc_channel_name_ok (codes "#B") ≡ true
unfolding irc_channel_name_ok
ok_b = refl

irc_channel_new_lem_example :
    ((irc_channel_new slist place 9 channels (codes "#c") ≡ none) ↔ (
      (irc_channel_name_ok (codes "#c") ≡ false)
      ⊎ (irc_channel_by_name channels (codes "#c") ≢ none)))
    × ((after : List Channel)
        → irc_channel_new slist place 9 channels (codes "#c") ≡ some after
        → All IsNamed after
          × NamesDiffer after
          × (irc_channel_by_name after (codes "#c")
              ≡ some (fresh_channel slist place 9 (codes "#c"))))
irc_channel_new_lem_example =
    irc_channel_new_lem slist place 9 channels (codes "#c")
      (two-InString b'c' (omega arith) (omega arith)) channels-IsNamed channels-NamesDiffer

irc_channel_get_lem_example :
    ((n : ℕ)
      → scan_int (codes "h") ≡ some (done (pos n))
      → n < 1000
      → irc_channel_get channels (codes "h") ≡ done (get_elem? channels n))
    × ((n : ℕ)
        → scan_int (codes "h") ≡ some (done (negsuc n))
        → irc_channel_get channels (codes "h") ≡ done none)
    × (IsText (codes "h")
        → (ic : Channel)
        → (irc_channel_get channels (codes "h") ≡ done (some ic)) ↔ (
            (irc_channel_by_name channels (codes "h") ≡ some ic)
            ⊎ ((irc_channel_by_name channels (codes "h") ≡ none) × IsOnly (codes "h") channels ic)))
    × (scan_int (codes "h") ≡ some fault → irc_channel_get channels (codes "h") ≡ fault)
irc_channel_get_lem_example = irc_channel_get_lem channels (codes "h")
