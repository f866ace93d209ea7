-- ===== src/Settings/Evaluators.antt =====
-- set.c: the evaluators, and numbers and truth values as settings.
use bitl_steam.Common.{
  ℕ, ◌≡◌, refl, true, Option, none, some, List, [], ◌∷◌, Bytes, arith, ◌==◌, if◌then◌else◌,
  is_digit, all, take, take-eq_of_le, strcmp_eq,
}
use bitl_steam.Common.Outcome.{done}
use bitl_steam.Glib.{Glib}
use bitl_steam.Stdio.{ℤ, print_int, IsInt}
use bitl_steam.Stdio.RoundTrip.{scan-print, length-print_int}
use bitl_steam.Misc.Bools.{is_bool}
use bitl_steam.Settings.{
  getstr, Setting, Verdict, invalid, gives, getint, int_of, answer, effect, Effect, setstr, setint,
}
use bitl_steam.Settings.Write.{getstr-setstr, plain_reads}

-- `set_eval_int`: an optional minus, and then digits alone.
unfoldable pub eval_int : Bytes → Verdict
eval_int [] = gives (some [])
eval_int (c ∷ s) =
    if all is_digit (if c == b'-' then s else c ∷ s) then gives (some (c ∷ s)) else invalid

unfoldable pub eval_bool : Glib → Bytes → Verdict
eval_bool g v = if is_bool g v then gives (some v) else invalid

-- `set_eval_list`: null where no option is the value.
unfoldable pub eval_list : List Bytes → Bytes → Verdict
eval_list [] v = gives none
eval_list (o ∷ options) v = if strcmp_eq v o then gives (some v) else eval_list options v

-- `set_eval_to_char`: the first character and a space, or one space alone. The first character of an
-- empty value is the closing zero, and the result is empty.
unfoldable pub eval_to_char : Bytes → Verdict
eval_to_char [] = gives (some [])
eval_to_char (c ∷ s) = if c == 32 then gives (some (32 ∷ [])) else gives (some (c ∷ 32 ∷ []))

take_print : (z : ℤ) → IsInt z → take 23 (print_int z) ≡ print_int z
take_print z fits = take-eq_of_le 23 (print_int z) (omega (arith, length-print_int z fits))

module _ (g : Glib) {E D W : Type 0}
    (run : E → Setting E D → Option Bytes → List (Setting E D) → ℕ → W → Effect E D W) where
  -- A number that `set_setint` stored where there is no evaluator, or one that gives its text back
  -- and leaves the list alone, is what `set_getint` reads.
  pub getint-setint :
      (l : List (Setting E D)) (k : Bytes) (z : ℤ) (w : W) {l' : List (Setting E D)} {w' : W}
      → IsInt z
      → ((e : E) (s : Setting E D) (i : ℕ)
          → run e s (some (print_int z)) l i w
            ≡ record { verdict = gives (some (print_int z)); list = l; place = i; world = w })
      → setint g run l k z w ≡ done (l', true, w')
      → getint g l' k ≡ done z
  unfolding getint setint
  getint-setint l k z w {l'} {w'} fits keeps h =
      let h : setstr g run l k (some (print_int z)) w ≡ done (l', true, w') =
        (rw (take_print z fits) at h) in
      let (i, s, t, nv, takes, (same, other, plain)) = getstr-setstr g run l k _ w h in
      let now =
        plain_reads g run l k (some (print_int z)) w i s t nv
          (answer g run l i s (some (print_int z)) w)
          (unfold answer in by_evaluator i s s.eval keeps) takes.given takes.found takes.left
          (getstr g l') same other in
      rw (now.1, int_of, scan-print z fits) refl
    where
      by_evaluator :
          (i : ℕ) (s : Setting E D) (o : Option E)
          → ((e : E) (s : Setting E D) (i : ℕ)
              → run e s (some (print_int z)) l i w
                ≡ record { verdict = gives (some (print_int z)); list = l; place = i; world = w })
          → effect g run l i s (some (print_int z)) w o
            ≡ record { verdict = gives (some (print_int z)); list = l; place = i; world = w }
      by_evaluator i s none keeps = unfold effect in refl
      by_evaluator i s (some e) keeps = unfold effect in keeps e s i
