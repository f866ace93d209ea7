-- ===== src/Base64.antt =====
-- lib/base64.c: the encoder and the decoder. The proofs are in the modules below.
pub mod Tables
pub mod RoundTrip
pub mod Bounds
pub mod Damage
mod Examples
use Prim.Native.Nat.{bit_and, bit_or}
use bitl_steam.Common.{
  ℕ, zero, suc, ◌+◌, ◌-◌, ◌*◌, ◌/◌, ◌%◌, ◌^◌, Bool, ◌&&◌, [], ◌∷◌, Bytes, codes, get_or, set,
  replicate, ltb, leb, if◌then◌else◌,
}

-- `real_b64`: 64 digits and the padding character.
abbrev pub real_b64 : Bytes
real_b64 = codes "ABCDEFGHIJKLMNOPQRSTUVWXYZabcdefghijklmnopqrstuvwxyz0123456789+/="

unfoldable pub digit : ℕ → ℕ
digit i = get_or real_b64 i 0

-- `x << k` of an `int` that has room for the result, and `x >> k`.
abbrev pub shl : ℕ → ℕ → ℕ
shl x k = x * 2 ^ k

abbrev pub shr : ℕ → ℕ → ℕ
shr x k = x / 2 ^ k

-- The indices into the digits that one round computes from three bytes.
pub index_0 : ℕ → ℕ
index_0 a = shr a 2

pub index_1 : ℕ → ℕ → ℕ
index_1 a b = bit_or (bit_and (shl a 4) 0x30) (shr b 4)

pub index_2 : ℕ → ℕ → ℕ
index_2 b c = bit_or (bit_and (shl b 2) 0x3c) (shr c 6)

pub index_3 : ℕ → ℕ
index_3 c = bit_and c 0x3f

-- The indices of a byte with none behind it.
pub last_1 : ℕ → ℕ
last_1 a = bit_and (shl a 4) 0x30

pub last_2 : ℕ → ℕ
last_2 b = bit_and (shl b 2) 0x3c

-- `base64_encode_real` with the digits `real_b64`: the loop while three bytes are left, then the
-- one or two bytes that remain, padded.
unfoldable pub encode_real : Bytes → Bytes
encode_real (a ∷ b ∷ c ∷ rest) =
    digit (index_0 a)
    ∷ digit (index_1 a b)
    ∷ digit (index_2 b c)
    ∷ digit (index_3 c)
    ∷ encode_real rest
encode_real (a ∷ b ∷ []) =
    digit (index_0 a) ∷ digit (index_1 a b) ∷ digit (last_2 b) ∷ digit 64 ∷ []
encode_real (a ∷ []) = digit (index_0 a) ∷ digit (last_1 a) ∷ digit 64 ∷ digit 64 ∷ []
encode_real [] = []

-- `for (i = 0; i <= 64; i++) b64rev[real_b64[i]] = i`, with the rounds left.
fill_rev : ℕ → ℕ → Bytes → Bytes
unfolding digit
fill_rev zero i t = t
fill_rev (suc n) i t = fill_rev n (i + 1) (set t (digit i) i)

-- The reverse table: 0xff where no digit is.
pub b64rev : Bytes
unfolding fill_rev
b64rev = fill_rev 65 0 (replicate 256 0xff)

-- A `char` is signed, so an entry from 128 up becomes a negative `int`, here its 32-bit pattern.
sign_extend : ℕ → ℕ
sign_extend v = if ltb v 128 then v else v + (2 ^ 32 - 256)

-- `sx = b64rev[c]`
unfoldable pub rev : ℕ → ℕ
unfolding b64rev sign_extend
rev c = sign_extend (get_or b64rev c 0)

-- `sx >= 64`, a signed comparison.
abbrev pub stops : ℕ → Bool
stops sx = leb 64 sx && ltb sx (2 ^ 31)

-- The bytes that one round puts together.
pub byte_0 : ℕ → ℕ → ℕ
byte_0 s t = bit_or (bit_and (shl s 2 % 2 ^ 32) 0xfc) (bit_and (shr t 4) 0x03)

pub byte_1 : ℕ → ℕ → ℕ
byte_1 t u = bit_or (bit_and (shl t 4 % 2 ^ 32) 0xf0) (bit_and (shr u 2) 0x0f)

pub byte_2 : ℕ → ℕ → ℕ
byte_2 u v = bit_or (bit_and (shl u 6 % 2 ^ 32) 0xc0) v % 256

-- `base64_decode_real`: the first `outlen` bytes of the buffer. A byte that is begun when a digit
-- stops the loop is not counted.
unfoldable pub decode_real : Bytes → Bytes
decode_real (c ∷ d ∷ e ∷ f ∷ rest) =
    if stops (rev c)
    then []
    else if stops (rev d)
    then []
    else if stops (rev e)
    then byte_0 (rev c) (rev d) ∷ []
    else if stops (rev f)
    then byte_0 (rev c) (rev d) ∷ byte_1 (rev d) (rev e) ∷ []
    else byte_0 (rev c) (rev d) ∷ byte_1 (rev d) (rev e) ∷ byte_2 (rev e) (rev f) ∷ decode_real rest
decode_real _ = []
