-- ===== src/Conf/Examples.antt =====
-- conf.c: a small file.
use mathlib.Core.Option
use bitl_steam.Common.{
  length, ◌<◌, ◌≤◌, ◌≡◌, ◌≢◌, refl, none, some, List, [], ◌∷◌, codes, arith, All,
}
use bitl_steam.Common.Split.{split_at, in_front}
use bitl_steam.Glib.Ascii.{ascii}
use bitl_steam.Ini.{Entry, ini_open, strip_end, keyed}
use bitl_steam.Ini.Setting.{IsSetting}
use bitl_steam.Ini.RoundTrip.{Item, sets, heads, IsItem, file_text, file_entries}
use bitl_steam.Settings.{Setting, fresh, find, matches}
use bitl_steam.Conf.{conf_loaddefaults}
use bitl_steam.Conf.Defaults.{with_default, default_at, conf_loaddefaults_lem}

abbrev ops : bitl_steam.Ini.Setting.Setting
ops = record {
  indent = [];
  key = codes "ops";
  gap = [];
  gap_behind = [];
  value = codes "root";
  trail = [];
  comment = none;
}

abbrev file : List Item
file = heads [] (codes "defaults") [] none ∷ sets ops ∷ []

text : file_text file ≡ codes "[defaults]\nops=root\n"
text = refl

ops-IsSetting : IsSetting ops
unfolding strip_end
ops-IsSetting = record {
  indent = tt;
  gap = tt;
  gap_behind = tt;
  trail = tt;
  key_trimmed = (refl, refl);
  key_starts = omega arith;
  key_plain = (
    (omega arith, omega arith, omega arith),
    ((omega arith, omega arith, omega arith), ((omega arith, omega arith, omega arith), tt)),
  );
  value_trimmed = (refl, refl);
  value_plain = (
    (omega arith, omega arith),
    ((omega arith, omega arith), ((omega arith, omega arith), ((omega arith, omega arith), tt))),
  );
}

name_plain : All (λ x. (x ≢ b']') × (x ≢ b'#') × (x ≢ 10)) (codes "defaults")
name_plain = (
  (omega arith, omega arith, omega arith),
  (
    (omega arith, omega arith, omega arith),
    (
      (omega arith, omega arith, omega arith),
      (
        (omega arith, omega arith, omega arith),
        (
          (omega arith, omega arith, omega arith),
          (
            (omega arith, omega arith, omega arith),
            (
              (omega arith, omega arith, omega arith),
              ((omega arith, omega arith, omega arith), tt),
            ),
          ),
        ),
      ),
    ),
  ),
)

file-IsItem : All IsItem file
file-IsItem = ((tt, (name_plain, (tt, tt))), ((ops-IsSetting, tt), tt))

abbrev settings : List (Setting (Unit {0}) (Unit {0}))
settings =
    fresh (codes "away") none none tt ∷ fresh (codes "ops") (some (codes "both")) none tt ∷ []

-- The default of the second one is the file's.
new_default :
    default_at ascii settings (file_entries [] file) 1 (some (codes "both")) ≡ some (codes "root")
unfolding default_at find matches keyed split_at in_front
new_default = refl

conf_loaddefaults_lem_example :
    (length (file_text file) ≤ 16384
      → find ascii (conf_loaddefaults ascii (ini_open (file_text file)) settings) (codes "OPS")
        ≡ Option.map
            (with_default ascii settings (file_entries [] file))
            (find ascii settings (codes "OPS")))
    × (16384 < length (file_text file)
        → conf_loaddefaults ascii (ini_open (file_text file)) settings ≡ settings)
conf_loaddefaults_lem_example = conf_loaddefaults_lem ascii file settings (codes "OPS") file-IsItem
