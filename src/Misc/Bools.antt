-- ===== src/Misc/Bools.antt =====
-- lib/misc.c: `is_bool` and `bool2int`.
use bitl_steam.Common.{
  Bool, true, false, ◌||◌, none, some, [], ◌∷◌, Bytes, codes, is_digit, all, if◌then◌else◌,
}
use bitl_steam.Common.Outcome.{Outcome, done}
use bitl_steam.Glib.{Glib}
use bitl_steam.Stdio.{ℤ, pos, scan_int}

module _ (g : Glib) where
  -- The words that stand for 1 and for 0, compared with no regard to case.
  pub says_yes : Bytes → Bool
  says_yes v =
      g.strcasecmp v (codes "true") || g.strcasecmp v (codes "yes") || g.strcasecmp v (codes "on")

  pub says_no : Bytes → Bool
  says_no v =
      g.strcasecmp v (codes "false") || g.strcasecmp v (codes "no") || g.strcasecmp v (codes "off")

  unfoldable pub is_bool : Bytes → Bool
  is_bool [] = false
  is_bool (c ∷ v) =
      if says_yes (c ∷ v) then true else if says_no (c ∷ v) then true else all is_digit (c ∷ v)

  unfoldable pub bool2int : Bytes → Outcome ℤ
  bool2int v =
      if says_yes v
      then done (pos 1)
      else if says_no v
      then done (pos 0)
      else elim (scan_int v) [ some z ↦ z | none ↦ done (pos 0) ]
