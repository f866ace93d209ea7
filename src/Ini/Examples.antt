-- ===== src/Ini/Examples.antt =====
-- lib/ini.c: a small file.
use bitl_steam.Common.{◌≡◌, refl, suc, none, some, List, [], ◌∷◌, codes, arith, length, All}
use bitl_steam.Common.Split.{in_front, split_at}
use bitl_steam.Ini.{Ini, ini_open, all_entries, keyed, strip_end}
use bitl_steam.Ini.Setting.{Setting, IsSetting}
use bitl_steam.Ini.RoundTrip.{
  Item, sets, heads, says, IsItem, file_text, file_entries, all_entries-file_text,
}

-- Blanks around the key, a comment behind the value.
abbrev daemon : Setting
daemon = record {
  indent = codes " ";
  key = codes "Run";
  gap = codes " ";
  gap_behind = codes " ";
  value = codes "a b";
  trail = codes " ";
  comment = some (codes "x");
}

abbrev file : List Item
file = says [] (some (codes " config")) ∷ heads [] (codes "settings") [] none ∷ sets daemon ∷ []

text : file_text file ≡ codes "# config\n[settings]\n Run = a b #x\n"
text = refl

entries :
    file_entries [] file
    ≡ record { section = codes "settings"; key = codes "Run"; value = codes "a b" } ∷ []
unfolding split_at keyed in_front
entries = refl

daemon-IsSetting : IsSetting daemon
unfolding strip_end
daemon-IsSetting = record {
  indent = ((refl, omega arith), tt);
  gap = ((refl, omega arith), tt);
  gap_behind = ((refl, omega arith), tt);
  trail = ((refl, omega arith), tt);
  key_trimmed = (refl, refl);
  key_starts = omega arith;
  key_plain = (
    (omega arith, omega arith, omega arith),
    ((omega arith, omega arith, omega arith), ((omega arith, omega arith, omega arith), tt)),
  );
  value_trimmed = (refl, refl);
  value_plain =
      ((omega arith, omega arith), ((omega arith, omega arith), ((omega arith, omega arith), tt)));
}

file-IsItem : All IsItem file
file-IsItem = (
  (tt, omega arith),
  ((tt, (omega arith, (tt, tt))), ((daemon-IsSetting, (omega arith, tt)), tt)),
)

all_entries-file_text_example :
    (ini : Ini) × (ini_open (file_text file) ≡ some ini)
    × (all_entries (suc (length (file_text file))) ini ≡ file_entries [] file)
all_entries-file_text_example = all_entries-file_text file file-IsItem (omega arith)
