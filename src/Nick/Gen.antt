-- ===== src/Nick/Gen.antt =====
-- nick.c: `nick_gen`, a nick after the user's format.
pub mod Total
use bitl_steam.Common.{
  ℕ, zero, suc, ◌+◌, ◌-◌, ◌*◌, ◌^◌, Bool, true, false, not, ◌&&◌, ◌||◌, Option, none, some, List,
  [], ◌∷◌, ◌++◌, Bytes, codes, is_digit, length, take, drop, ltb, ◌==◌, if◌then◌else◌,
}
use bitl_steam.Common.Outcome.{Outcome, done, fault, ◌>>=◌}
use bitl_steam.Glib.{Glib, HashTable}
use bitl_steam.Nick.{
  max_nick_length, is_nick_char, first_is_digit, clean_handle, nick_strip, nick_lc, dedupe,
  inf_protection,
}

-- What `nick_gen` reads of a buddy: null pointers are `none`.
pub record Buddy : Type 0 where
  pub handle : Bytes
  pub nick : Option Bytes
  pub fullname : Option Bytes
  pub group_name : Option Bytes
  pub account_tag : Option Bytes

-- What one directive of the format asks for.
pub record Directive : Type 0 where
  pub rest : Bytes
  pub part : Option Bytes
  pub chop : ℕ
  pub len : ℕ
  pub unique : Bool

-- The digits at the front as a number, and what follows them.
unfoldable pub read_number : ℕ → Bytes → ℕ × Bytes
read_number n [] = (n, [])
read_number n (c ∷ s) = if is_digit c then read_number (n * 10 + (c - b'0')) s else (n, c ∷ s)

-- `part && *part`
abbrev pub not_empty : Option Bytes → Bool
not_empty none = false
not_empty (some []) = false
not_empty (some (c ∷ s)) = true

abbrev pub or_else : Option Bytes → Bytes → Bytes
or_else none d = d
or_else (some v) d = v

module _ (g : Glib) where
  -- The words of the format, tried in order. `none`: return NULL.
  unfoldable pub keyword : Buddy → Bytes → ℕ → ℕ → Option Directive
  keyword bu fmt chop len =
      if g.strncasecmp fmt (codes "nick") 4
      then some (record {
        rest = drop 4 fmt;
        part = some (or_else bu.nick bu.handle);
        chop = chop;
        len = len;
        unique = true;
      })
      else if g.strncasecmp fmt (codes "handle") 6
      then some (record {
        rest = drop 6 fmt;
        part = some bu.handle;
        chop = chop;
        len = len;
        unique = true;
      })
      else if g.strncasecmp fmt (codes "full_name") 9
      then some (record {
        rest = drop 9 fmt;
        part = bu.fullname;
        chop = chop;
        len = len;
        unique = not_empty bu.fullname;
      })
      else if g.strncasecmp fmt (codes "first_name") 10
      then some (record {
        rest = drop 10 fmt;
        part = bu.fullname;
        chop = 32;
        len = len;
        unique = not_empty bu.fullname;
      })
      else if g.strncasecmp fmt (codes "group") 5
      then some (record {
        rest = drop 5 fmt;
        part = bu.group_name;
        chop = chop;
        len = len;
        unique = false;
      })
      else if g.strncasecmp fmt (codes "account") 7
      then some (record {
        rest = drop 7 fmt;
        part = bu.account_tag;
        chop = chop;
        len = len;
        unique = false;
      })
      else none

  -- The inner loop behind a `%`, on fuel. A number that does not fit an `int` is undefined.
  unfoldable pub directive : ℕ → Buddy → Bytes → ℕ → ℕ → Outcome (Option Directive)
  directive zero bu fmt chop len = fault
  directive (suc f) bu [] chop len =
      done (some (record { rest = []; part = none; chop = chop; len = len; unique = false }))
  directive (suc f) bu (c ∷ []) chop len =
      if c == b'-'
      then done none
      else if is_digit c
      then directive f bu [] chop (c - b'0')
      else done (keyword bu (c ∷ []) chop len)
  directive (suc f) bu (c ∷ d ∷ s) chop len =
      let number = read_number 0 (c ∷ d ∷ s) in
      let chopped = directive f bu s d len in
      let counted : Outcome (Option Directive) =
        if ltb number.0 (2 ^ 31) then directive f bu number.1 chop number.0 else fault in
      if c == b'-'
      then chopped
      else if is_digit c
      then counted
      else done (keyword bu (c ∷ d ∷ s) chop len)

-- The loop over the part: the allowed characters among the first `len`, up to `chop`.
unfoldable pub picked : ℕ → ℕ → Bytes → Bytes
picked chop len [] = []
picked chop zero (c ∷ s) = []
picked chop (suc len) (c ∷ s) =
    let rest = picked chop len s in
    if c == chop then [] else if is_nick_char c then c ∷ rest else rest

-- What a directive adds behind `ret`: an underscore first where a digit would be in front.
unfoldable pub append_part : Bytes → Option Bytes → ℕ → ℕ → Bytes
append_part ret none chop len = ret
append_part ret (some part) chop len =
    (if length ret == 0 && first_is_digit part then ret ++ b'_' ∷ [] else ret)
    ++ picked chop len part

-- `g_string_free(ret, ret->len == 0 || !ok)`
abbrev pub finish : Bytes → Bool → Option Bytes
finish ret ok = if length ret == 0 || not ok then none else some ret

-- NULL is returned at once.
unfoldable pub resume :
    Outcome (Option Directive) → (Directive → Outcome (Option Bytes)) → Outcome (Option Bytes)
resume fault k = fault
resume (done none) k = done none
resume (done (some d)) k = k d

module _ (g : Glib) (convert : Bytes → Option Bytes) where
  -- `g_convert_with_fallback` to ASCII, where there is a part.
  unfoldable pub converted : Option Bytes → Option Bytes
  converted none = none
  converted (some part) = convert part

  -- The outer loop on fuel. It ends with the format, or as soon as there are 24 characters.
  unfoldable pub gen_loop : ℕ → Buddy → Bytes → Bytes → Bool → Outcome (Option Bytes)
  gen_loop zero bu fmt ret ok = fault
  gen_loop (suc f) bu [] ret ok = done (finish ret ok)
  gen_loop (suc f) bu (c ∷ fmt) ret ok =
      let plain = gen_loop f bu fmt (ret ++ c ∷ []) ok in
      let formatted = resume (directive g (suc f) bu fmt 0 max_nick_length) λ d.
        gen_loop f bu d.rest (append_part ret (converted d.part) d.chop d.len) (ok || d.unique) in
      if not (ltb (length ret) max_nick_length)
      then done (finish ret ok)
      else if c == b'%'
      then formatted
      else plain

  -- Each round takes a character off the format, so its length is enough fuel.
  unfoldable pub nick_gen : Buddy → Option Bytes → Outcome (Option Bytes)
  nick_gen bu none = done none
  nick_gen bu (some fmt) = gen_loop (suc (length fmt)) bu fmt [] false
