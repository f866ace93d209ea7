-- ===== src/Misc/Http.antt =====
-- lib/misc.c: `http_encode` and `http_decode`.
pub mod RoundTrip
mod Examples
use bitl_steam.Common.{
  c_string, ℕ, zero, suc, ◌%◌, Bool, true, false, ◌&&◌, ◌||◌, Option, none, some, [], ◌∷◌, ◌++◌,
  Bytes, codes, contains, is_digit, is_upper, is_lower, ltb, leb, ◌==◌, if◌then◌else◌,
}
use bitl_steam.Common.Outcome.{Outcome, done, fault}
use bitl_steam.Stdio.Hex.{print_hex2, Scanned, ended, unmatched, value, scan_hex2}

-- The bytes that are not escaped.
abbrev pub is_unreserved : ℕ → Bool
is_unreserved c = is_upper c || is_lower c || is_digit c || contains (codes "._-~") c

unfoldable pub http_encode : Bytes → Bytes
http_encode [] = []
http_encode (c ∷ s) =
    let rest = http_encode s in if is_unreserved c then c ∷ rest else b'%' ∷ print_hex2 c ++ rest

-- A decoded byte in front; `none` is the text given up.
pub put : ℕ → Outcome (Option Bytes) → Outcome (Option Bytes)
put c (done (some t)) = done (some (c ∷ t))
put c r = r

-- sscanf is true at the end of the input as well, where it leaves `k` unset.
pub escape : Scanned → Outcome (Option Bytes) → Outcome (Option Bytes)
unfolding put
escape ended rest = fault
escape unmatched rest = done none
escape (value k) rest = put (k % 256) rest

-- The loop, with the bytes that `i` still jumps over. Beyond the end of the string it reads what is
-- not the string's.
unfoldable pub decode_from : ℕ → Bytes → Outcome (Option Bytes)
unfolding put escape
decode_from zero [] = done (some [])
decode_from (suc n) [] = fault
decode_from (suc n) (c ∷ s) = decode_from n s
decode_from zero (c ∷ s) = elim (c == b'%') [
  | true ↦ escape (scan_hex2 s) (decode_from 2 s)
  | false ↦ put c (decode_from 0 s)
]

abbrev pub copied : Outcome (Option Bytes) → Outcome Bytes
copied fault = fault
copied (done none) = done []
copied (done (some t)) = done (c_string t)

unfoldable pub http_decode : Bytes → Outcome Bytes
http_decode s = copied (decode_from 0 s)
