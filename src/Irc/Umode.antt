-- ===== src/Irc/Umode.antt =====
-- irc.c: the modes of the client's own user.
pub mod Loop
pub mod Safety
pub mod Replay
pub mod Bounds
mod Examples
use bitl_steam.Common.{
  ℕ, zero, suc, ◌+◌, Bool, true, false, not, ◌&&◌, ◌||◌, Option, none, some, List, [], ◌∷◌, ◌++◌,
  Bytes, codes, contains, length, get_or, set, replicate, ltb, ◌==◌, if◌then◌else◌,
}
use bitl_steam.Common.Outcome.{Outcome, done, fault, ◌>>=◌}

abbrev pub umodes : Bytes
umodes = codes "abisw"

abbrev pub umodes_priv : Bytes
umodes_priv = codes "Ro"

abbrev pub umodes_keep : Bytes
umodes_keep = codes "R"

-- The array `m`: one number for each ASCII character. A string sets its characters to 1, and bytes
-- from 128 up are skipped.
unfoldable pub enable : Bytes → List ℕ → List ℕ
enable [] m = m
enable (t ∷ s) m = enable s (if ltb t 128 then set m t 1 else m)

unfoldable pub mode_array : Bytes → List ℕ
unfolding enable
mode_array umode = enable umode (replicate 128 0)

-- The variables of the loop. `st2` is 2 until the first change is written.
pub record Scan : Type 0 where
  pub m : List ℕ
  pub st : ℕ
  pub st2 : ℕ
  pub changes : Bytes
  pub badflag : Bool

abbrev pub sign_of : ℕ → ℕ
sign_of st = if st == 0 then b'-' else b'+'

-- `allow_priv` is off when the modes are what a client sent.
unfoldable pub is_allowed : Bool → ℕ → ℕ → Bool
is_allowed allow_priv st t =
    (st == 0 && (not (contains umodes_keep t) || allow_priv))
    || (st == 1 && contains umodes t)
    || (st == 1 && allow_priv && contains umodes_priv t)

-- What is written for a change: the sign if it is another one than before, and the character.
unfoldable pub note_change : ℕ → Scan → Scan
note_change t sc =
    if sc.st == sc.st2
    then record sc { changes = sc.changes ++ t ∷ [] }
    else record sc { st2 = sc.st; changes = sc.changes ++ sign_of sc.st ∷ t ∷ [] }

unfoldable pub assign : ℕ → Scan → Scan
assign t sc = record sc { m = set sc.m t sc.st }

-- A `char` from 128 up is a negative index: what `m` has there is not the array's.
unfoldable pub change : ℕ → Scan → Outcome Scan
unfolding note_change assign
change t sc =
    if ltb t 128
    then done (assign t (if get_or sc.m t 0 == sc.st then sc else note_change t sc))
    else fault

unfoldable pub umode_step : Bool → ℕ → Scan → Outcome Scan
unfolding is_allowed change
umode_step allow_priv t sc =
    if t == b'+' || t == b'-'
    then done (record sc { st = if t == b'+' then 1 else 0 })
    else if is_allowed allow_priv sc.st t
    then change t sc
    else done (record sc { badflag = true })

-- The loop over the string, as long as the answer has room: `sizeof( changes ) - 3` is 509.
unfoldable pub umode_scan : Bool → Bytes → Scan → Outcome Scan
unfolding umode_step
umode_scan allow_priv [] sc = done sc
umode_scan allow_priv (t ∷ s) sc =
    let next = umode_step allow_priv t sc >>= λ sc. umode_scan allow_priv s sc in
    if ltb (length sc.changes) 509 then next else done sc

-- The array as a string: the set characters among the `n` from `i` on, as far as there is room.
unfoldable pub collect : ℕ → ℕ → ℕ → List ℕ → Bytes
collect zero i room m = []
collect (suc n) i zero m = []
collect (suc n) i (suc room) m =
    let taken = i ∷ collect n (i + 1) room m in
    let skipped = collect n (i + 1) (suc room) m in if get_or m i 0 == 0 then skipped else taken

-- From 'A' to 'z', into an array of 8 characters.
unfoldable pub umode_string : List ℕ → Bytes
unfolding collect
umode_string = collect 58 b'A' 7

-- The new modes; the text of the reply about the changes, if there were any; and whether the reply
-- about an unknown flag is sent.
pub record Answer : Type 0 where
  pub umode : Bytes
  pub changes : Bytes
  pub badflag : Bool

unfoldable pub first_scan : Bytes → Scan
unfolding mode_array
first_scan umode = record { m = mode_array umode; st = 1; st2 = 2; changes = []; badflag = false }

unfoldable pub irc_umode_set : Bool → Bytes → Bytes → Outcome Answer
unfolding first_scan umode_scan umode_string
irc_umode_set allow_priv umode s = umode_scan allow_priv s (first_scan umode) >>= λ sc.
    done (record { umode = umode_string sc.m; changes = sc.changes; badflag = sc.badflag })
