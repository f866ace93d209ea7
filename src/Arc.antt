-- ===== src/Arc.antt =====
-- lib/arc.c: the ArcFour generator, and the encryption of passwords with it.
pub mod Decode
pub mod Shuffle
mod Examples
use bitl_steam.Common.{
  ℕ, zero, suc, ◌+◌, ◌-◌, ◌*◌, ◌%◌, Bool, Option, none, some, [], ◌∷◌, ◌++◌, Bytes, length, get_or,
  set, take, drop, ltb, leb, ◌==◌, ◌&&◌, if◌then◌else◌,
}
use Prim.Native.Nat.{bit_xor}

-- `ARC_IV_LEN`, `ARC_CYCLES`
abbrev pub iv_len : ℕ
iv_len = 6

abbrev pub cycles : ℕ
cycles = 1024

-- `struct arc_state`
pub record ArcState : Type 0 where
  pub s : Bytes
  pub i : ℕ
  pub j : ℕ

-- `tmp = S[i]; S[i] = S[j]; S[j] = tmp`
unfoldable pub swapped : Bytes → ℕ → ℕ → Bytes
swapped s i j = set (set s i (get_or s j 0)) j (get_or s i 0)

-- The state after a byte is taken. `i` and `j` are bytes.
unfoldable pub advance : ArcState → ArcState
advance st =
    let i = (st.i + 1) % 256 in
    let j = (st.j + get_or st.s i 0) % 256 in record { s = swapped st.s i j; i = i; j = j }

-- What `arc_getbyte` returns, read in the state after it.
unfoldable pub output : ArcState → ℕ
output st = get_or st.s ((get_or st.s st.i 0 + get_or st.s st.j 0) % 256) 0

unfoldable pub discard : ℕ → ArcState → ArcState
discard zero st = st
discard (suc n) st = discard n (advance st)

-- `S[i] = i`, from `i` on.
unfoldable pub identity : ℕ → ℕ → Bytes
identity zero i = []
identity (suc n) i = i ∷ identity n (suc i)

-- The shuffle by the key, with the rounds left.
unfoldable pub key_rounds : ℕ → Bytes → ℕ → ℕ → Bytes → Bytes
key_rounds zero key i j s = s
key_rounds (suc n) key i j s =
    let j' = (j + get_or s i 0 + get_or key (i % length key) 0) % 256 in
    key_rounds n key (suc i) j' (swapped s i j')

unfoldable pub keymaker : Bytes → ArcState
keymaker key = discard cycles (record { s = key_rounds 256 key 0 0 (identity 256 0); i = 0; j = 0 })

-- `text[i] ^ arc_getbyte(st)` in order.
unfoldable pub xor_stream : ArcState → Bytes → Bytes
xor_stream st [] = []
xor_stream st (c ∷ text) = bit_xor c (output (advance st)) ∷ xor_stream (advance st) text

-- The text padded to a multiple of `pad_to` by a zero and random bytes.
unfoldable pub padded : Bytes → ℕ → Bytes → Bytes
padded clear pad_to fill =
    if ltb 0 pad_to && ltb 0 (length clear % pad_to)
    then clear ++ 0 ∷ take (pad_to - length clear % pad_to - 1) fill
    else clear

-- `iv` and `fill` are what `random_bytes` gives.
unfoldable pub arc_encode : Bytes → Bytes → Bytes → Bytes → ℕ → Bytes
arc_encode iv fill clear password pad_to =
    iv ++ xor_stream (keymaker (password ++ iv)) (padded clear pad_to fill)

-- `none` is the result -1.
unfoldable pub arc_decode : Bytes → Bytes → Option Bytes
arc_decode crypt password =
    if ltb (length crypt) iv_len
    then none
    else some (xor_stream (keymaker (password ++ take iv_len crypt)) (drop iv_len crypt))
