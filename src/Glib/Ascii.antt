-- ===== src/Glib/Ascii.antt =====
-- A comparison that has the documented behaviour, for runs and for concrete inputs of theorems.
use bitl_steam.Common.{take, map, tolower, strcmp_eq, strcmp_eq_iff}
use bitl_steam.Glib.{Glib}

abbrev pub ascii : Glib
ascii = record {
  strcasecmp = λ a b. strcmp_eq (map tolower a) (map tolower b);
  strcasecmp_iff = λ a b. strcmp_eq_iff (map tolower a) (map tolower b);
  strncasecmp = λ a b n. strcmp_eq (map tolower (take n a)) (map tolower (take n b));
  strncasecmp_iff = λ a b n. strcmp_eq_iff (map tolower (take n a)) (map tolower (take n b));
}
