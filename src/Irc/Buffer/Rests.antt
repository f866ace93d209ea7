-- ===== src/Irc/Buffer/Rests.antt =====
-- irc.c: the incomplete line that `irc_process` leaves in the buffer.
use bitl_steam.Common.{◌≡◌, refl, ap, sym, ◌∙◌, false, List, [], ◌∷◌, append-nil, Bytes}
use bitl_steam.Irc.Buffer.{starts_line, splitlines}
use bitl_steam.Irc.Buffer.Chunks.{
  lines_of, rest_of, scan, lines_of-scan, IsPlain, scan_plain, rest-IsPlain,
}

-- A text without a complete line.
abbrev pub IsRest : Bytes → Type 0
IsRest r = (lines_of r ≡ []) × (rest_of r ≡ r)

pub nil-IsRest : IsRest []
unfolding lines_of rest_of splitlines
nil-IsRest = (refl, refl)

plain_starts : (r : Bytes) → IsPlain r → starts_line r ≡ false
plain_starts [] h = refl
plain_starts (c ∷ r) (h, _) = h

plain-IsRest : (r : Bytes) → IsPlain r → IsRest r
unfolding scan
plain-IsRest r h =
    let cut = lines_of-scan r (plain_starts r h) in
    let whole = ap (scan []) (sym (append-nil r)) ∙ scan_plain r [] [] h in
    (ap (λ x. x.0) cut ∙ ap (λ x. x.0) whole, ap (λ x. x.1) cut ∙ ap (λ x. x.1) whole)

pub rest_of-IsRest : (s : Bytes) → starts_line s ≡ false → IsRest (rest_of s)
rest_of-IsRest s h =
    let same = ap (λ (x : List Bytes × Bytes). x.1) (lines_of-scan s h) in
    rw same (plain-IsRest (scan [] s).1 (rest-IsPlain s [] tt))
