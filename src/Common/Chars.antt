-- ===== src/Common/Chars.antt =====
-- Bytes, and the C library's character tests in the "C" locale.
use Prim.Native.Nat.{ℕ, ◌+◌, ◌<◌}
use mathlib.Core.Path.{◌≡◌, refl}
use mathlib.Core.Logic.{◌↔◌}
use native.Mathlib.Omega.{arith}
use Prim.Native.Char.{code}
use Prim.Native.String.{String}
use mathlib.Core.Bool.{Bool, true, false, ◌&&◌, ◌||◌}
use mathlib.Core.List.{List, [], ◌∷◌, ◌++◌}
use bitl_steam.Common.Lists.{All}
use bitl_steam.Common.Tests.{leb, ◌==◌, if◌then◌else◌}

abbrev pub Bytes : Type 0
Bytes = List ℕ

abbrev pub IsByte : ℕ → Type 0
IsByte c = c < 256

-- The bytes of an ASCII literal.
abbrev pub codes : String → Bytes
codes String.[] = []
codes (String.◌∷◌ c s) = code c ∷ codes s

abbrev pub is_digit : ℕ → Bool
is_digit c = leb b'0' c && leb c b'9'

abbrev pub is_upper : ℕ → Bool
is_upper c = leb b'A' c && leb c b'Z'

abbrev pub is_lower : ℕ → Bool
is_lower c = leb b'a' c && leb c b'z'

abbrev pub is_alpha : ℕ → Bool
is_alpha c = is_upper c || is_lower c

-- Space, and the five from tab to carriage return.
abbrev pub is_space : ℕ → Bool
is_space c = c == 32 || (leb 9 c && leb c 13)

abbrev pub tolower : ℕ → ℕ
tolower c = if is_upper c then c + 32 else c

-- `strcmp(a, b) == 0`
abbrev pub strcmp_eq : Bytes → Bytes → Bool
strcmp_eq [] [] = true
strcmp_eq [] (y ∷ ys) = false
strcmp_eq (x ∷ xs) [] = false
strcmp_eq (x ∷ xs) (y ∷ ys) = x == y && strcmp_eq xs ys

pub strcmp_eq_iff : (a b : Bytes) → (strcmp_eq a b ≡ true) ↔ (a ≡ b)
strcmp_eq_iff [] [] = (λ h. refl, λ h. refl)
strcmp_eq_iff [] (y ∷ b) = (λ h. cc, λ h. cc)
strcmp_eq_iff (x ∷ a) [] = (λ h. cc, λ h. cc)
strcmp_eq_iff (x ∷ a) (y ∷ b) = let (to, from) = strcmp_eq_iff a b in ground (arith, to, from)

-- `strchr(s, c) != NULL`; the closing zero counts as a member.
abbrev pub contains : Bytes → ℕ → Bool
contains [] c = c == 0
contains (x ∷ xs) c = x == c || contains xs c

-- The C string at the start of some bytes: what is in front of the first zero.
abbrev pub c_string : Bytes → Bytes
c_string [] = []
c_string (c ∷ s) = if c == 0 then [] else c ∷ c_string s

-- The bytes of a C string.
abbrev pub InString : ℕ → Type 0
InString c = (0 < c) × (c < 256)

pub c_string-All : (s : Bytes) → All InString s → c_string s ≡ s
c_string-All [] h = refl
c_string-All (c ∷ s) ((low, high), h) = (let rest = c_string-All s h in ground arith)

-- A string with a zero behind it, whatever follows.
pub c_string-InString : (s rest : Bytes) → All InString s → c_string (s ++ 0 ∷ rest) ≡ s
c_string-InString [] rest h = refl
c_string-InString (c ∷ s) rest ((low, high), h) =
    (let more = c_string-InString s rest h in ground arith)
