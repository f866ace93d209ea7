-- ===== src/Irc/Umode/Safety.antt =====
-- irc.c: what a client can change with `irc_umode_set`.
use bitl_steam.Common.{
  ℕ, zero, suc, ◌+◌, ◌<◌, ◌≤◌, ◌≡◌, ◌≢◌, refl, ap, sym, ◌∙◌, Bool, true, false, ◌||◌, List, [], ◌∷◌,
  Bytes, contains, length, get_or, set, ltb, ◌==◌, if◌then◌else◌, arith, All, ◌⊎◌, inl, inr,
  get_or-set, get_or-set_other, length-set, Bool-cases, ==_iff, replicate, ◌↔◌,
}
use bitl_steam.Common.Outcome.{done}
use bitl_steam.Irc.Umode.Bounds.{irc_umode_set_fits}
use bitl_steam.Irc.Umode.{
  Scan, Answer, umode_step, is_allowed, umodes, umodes_priv, mode_array, enable, first_scan,
  collect, umode_string, irc_umode_set,
}
use bitl_steam.Irc.Umode.Loop.{answer_induction, assign_lem, step_cases}

-- The modes there are.
abbrev pub is_mode : ℕ → Bool
is_mode c = contains umodes c || contains umodes_priv c

abbrev pub IsUmode : Bytes → Type 0
IsUmode = All (λ c. (64 < c) × (c < 123) × (is_mode c ≡ true))

-- An array that is on at modes only.
pub record IsModeArray (m : List ℕ) : Type 0 where
  pub sized : length m ≡ 128
  pub only_modes : (c : ℕ) → get_or m c 0 ≢ 0 → is_mode c ≡ true

get_or-set_if :
    (m : List ℕ) (t c v : ℕ)
    → t < length m
    → get_or (set m t v) c 0 ≡ (if t == c then v else get_or m c 0)
get_or-set_if m t c v h = elim (Bool-cases (t == c)) [
  | inl e ↦ let same = (==_iff t c).0 e in rw (e, sym same) (get_or-set m t v 0 h)
  | inr e ↦ let other = get_or-set_other m t c v 0 in ground arith
]

set-IsModeArray :
    (m : List ℕ) (t v : ℕ)
    → t < 128
    → (v ≢ 0 → is_mode t ≡ true)
    → IsModeArray m
    → IsModeArray (set m t v)
set-IsModeArray m t v h ok i = record {
  sized = length-set m t v ∙ i.sized;
  only_modes = λ c on.
      let at_c = get_or-set_if m t c v (omega (arith, i.sized)) in
      let old = i.only_modes c in ground arith;
}

enable-IsModeArray : (s : Bytes) (m : List ℕ) → IsUmode s → IsModeArray m → IsModeArray (enable s m)
unfolding enable
enable-IsModeArray [] m h i = i
enable-IsModeArray (c ∷ s) m ((low, high, ok), h) i =
    let ascii : ltb c 128 ≡ true = ground arith in
    rw ascii (enable-IsModeArray s (set m c 1) h (set-IsModeArray m c 1 (omega arith) (λ e. ok) i))

replicate_off : (n c : ℕ) → get_or {A = ℕ} (replicate n 0) c 0 ≡ 0
replicate_off zero c = refl
replicate_off (suc n) zero = refl
replicate_off (suc n) (suc c) = replicate_off n c

mode_array-IsModeArray : (s : Bytes) → IsUmode s → IsModeArray (mode_array s)
unfolding mode_array
mode_array-IsModeArray s h =
    enable-IsModeArray s (replicate 128 0) h
      (record { sized = refl; only_modes = λ c on. absurd (on (replicate_off 128 c)) })

-- What the loop keeps when the privilege is missing.
record Unprivileged (m : List ℕ) (sc : Scan) : Type 0 where
  small : sc.st ≤ 1
  modes : IsModeArray sc.m
  keeps : get_or sc.m b'R' 0 ≡ get_or m b'R' 0
  gains : get_or sc.m b'o' 0 ≢ 0 → get_or m b'o' 0 ≢ 0

allowed_mode : (t st : ℕ) → is_allowed false st t ≡ true → st ≢ 0 → is_mode t ≡ true
unfolding is_allowed
allowed_mode t st h ne = ground arith

allowed_keep : (t st : ℕ) → is_allowed false st t ≡ true → t ≢ b'R'
unfolding is_allowed
allowed_keep t st h = ground arith

allowed_gain : (t st : ℕ) → is_allowed false st t ≡ true → st ≢ 0 → t ≢ b'o'
unfolding is_allowed
allowed_gain t st h ne = ground arith

step-Unprivileged :
    (m : List ℕ) (t : ℕ) (sc next : Scan)
    → Unprivileged m sc
    → umode_step false t sc ≡ done next
    → Unprivileged m next
step-Unprivileged m t sc next h e = elim (step_cases false t sc next e) [
  | inl (same_m, same_changes, same_st2, sign) ↦ record {
    small = (let small = h.small in ground arith);
    modes = rw same_m h.modes;
    keeps = rw same_m h.keeps;
    gains = rw same_m h.gains;
  }
  | inr (ascii, p, q, ok, same) ↦
      let (new_m, same_st) = assign_lem t sc in
      let at : (c : ℕ)
          → get_or (set sc.m t sc.st) c 0 ≡ (if t == c then sc.st else get_or sc.m c 0) =
        λ c. get_or-set_if sc.m t c sc.st (omega (arith, h.modes.sized)) in
      rw same (record {
        small = rw same_st h.small;
        modes = rw new_m (set-IsModeArray sc.m t sc.st ascii (allowed_mode t sc.st ok) h.modes);
        keeps = rw new_m (
            let here = at b'R' in
            let old = h.keeps in let ne = allowed_keep t sc.st ok in ground arith);
        gains = rw new_m (
            let here = at b'o' in
            let old = h.gains in let ne = allowed_gain t sc.st ok in ground arith);
      })
]

-- The characters of a range at which an array is on.
count : ℕ → ℕ → List ℕ → ℕ
count zero i m = 0
count (suc n) i m = let rest = count n (i + 1) m in if get_or m i 0 == 0 then rest else rest + 1

count_modes : ℕ → ℕ → ℕ
count_modes zero i = 0
count_modes (suc n) i = let rest = count_modes n (i + 1) in if is_mode i then rest + 1 else rest

count-le : (n i : ℕ) (m : List ℕ) → IsModeArray m → count n i m ≤ count_modes n i
unfolding count count_modes
count-le zero i m h = omega arith
count-le (suc n) i m h =
    let rest = count-le n (i + 1) m h in let ok = h.only_modes i in ground arith

count_seven : count_modes 58 b'A' ≡ 7
unfolding count_modes
count_seven = refl

collect_zero : (n i : ℕ) (m : List ℕ) → collect n i 0 m ≡ []
unfolding collect
collect_zero zero i m = refl
collect_zero (suc n) i m = refl

collect_iff :
    (n i room c : ℕ) (m : List ℕ)
    → c ≢ 0
    → count n i m ≤ room
    → (contains (collect n i room m) c ≡ true) ↔ ((i ≤ c) × (c < i + n) × (get_or m c 0 ≢ 0))
unfolding collect count
collect_iff zero i room c m nz h = ground arith
collect_iff (suc n) i zero c m nz h =
    let rest = rw (collect_zero n (i + 1) m) at (collect_iff n (i + 1) zero c m nz) in
    let same : i ≡ c → get_or m i 0 ≡ get_or m c 0 = λ e. ap (λ k. get_or m k 0) e in ground arith
collect_iff (suc n) i (suc room) c m nz h =
    let rest = collect_iff n (i + 1) (suc room) c m nz in
    let less = collect_iff n (i + 1) room c m nz in
    let same : i ≡ c → get_or m i 0 ≡ get_or m c 0 = λ e. ap (λ k. get_or m k 0) e in
    elim (Bool-cases (get_or m i 0 == 0)) [
      | inl off ↦ rw off (ground arith)
      | inr on ↦ rw on (ground arith)
    ]

collect-All :
    (n i room : ℕ) (m : List ℕ)
    → 64 < i
    → i + n ≤ 123
    → IsModeArray m
    → IsUmode (collect n i room m)
unfolding collect
collect-All zero i room m low high h = tt
collect-All (suc n) i zero m low high h = tt
collect-All (suc n) i (suc room) m low high h = elim (Bool-cases (get_or m i 0 == 0)) [
  | inl off ↦ rw off (collect-All n (i + 1) (suc room) m (omega arith) (omega arith) h)
  | inr on ↦ rw on (
    (low, omega arith, h.only_modes i (ground arith)),
    collect-All n (i + 1) room m (omega arith) (omega arith) h,
  )
]

enable_iff :
    (s : Bytes) (m : List ℕ) (c : ℕ)
    → IsUmode s
    → length m ≡ 128
    → c ≢ 0
    → (get_or (enable s m) c 0 ≢ 0) ↔ ((contains s c ≡ true) ⊎ (get_or m c 0 ≢ 0))
unfolding enable
enable_iff [] m c h e nz = ground arith
enable_iff (t ∷ s) m c ((low, high, ok), h) e nz =
    let ascii : ltb t 128 ≡ true = ground arith in
    let rest = enable_iff s (set m t 1) c h (length-set m t 1 ∙ e) nz in
    let here = get_or-set_if m t c 1 (omega arith) in rw ascii (ground arith)

mode_array_iff :
    (umode : Bytes) (c : ℕ)
    → IsUmode umode
    → c ≢ 0
    → (get_or (mode_array umode) c 0 ≢ 0) ↔ (contains umode c ≡ true)
unfolding mode_array
mode_array_iff umode c h nz =
    let all_of = enable_iff umode (replicate 128 0) c h refl nz in
    let off = replicate_off 128 c in ground arith

umode_string_iff :
    (m : List ℕ) (c : ℕ)
    → IsModeArray m
    → 64 < c
    → c < 123
    → (contains (umode_string m) c ≡ true) ↔ (get_or m c 0 ≢ 0)
unfolding umode_string
umode_string_iff m c h low high =
    let all_of =
      collect_iff 58 b'A' 7 c m (omega arith)
        (let few = count-le 58 b'A' m h in omega (arith, count_seven)) in
    ground arith

first_scan-Unprivileged :
    (umode : Bytes) → IsUmode umode → Unprivileged (mode_array umode) (first_scan umode)
unfolding first_scan
first_scan-Unprivileged umode h = record {
  small = omega arith;
  modes = mode_array-IsModeArray umode h;
  keeps = refl;
  gains = λ e. e;
}

answer_safe :
    (umode s : Bytes) (a : Answer)
    → IsUmode umode
    → irc_umode_set false umode s ≡ done a
    → IsUmode a.umode
      × ((contains a.umode b'R' ≡ true) ↔ (contains umode b'R' ≡ true))
      × (contains a.umode b'o' ≡ true → contains umode b'o' ≡ true)
answer_safe umode s a h e =
    let m = mode_array umode in
    let (last, kept, same) =
      answer_induction (Unprivileged m) false umode s a (step-Unprivileged m)
        (first_scan-Unprivileged umode h) e in
    let new_R = umode_string_iff last.m b'R' kept.modes (omega arith) (omega arith) in
    let new_o = umode_string_iff last.m b'o' kept.modes (omega arith) (omega arith) in
    let old_R = mode_array_iff umode b'R' h (omega arith) in
    let old_o = mode_array_iff umode b'o' h (omega arith) in
    let keeps = kept.keeps in
    let gains = kept.gains in
    rw (sym same) (
      unfold umode_string in collect-All 58 b'A' 7 last.m (omega arith) (omega arith) kept.modes,
      ground arith,
      ground arith,
    )

-- What a client sends in ASCII cannot make it an operator, and it can neither identify it nor take that
-- away: from modes that exist, `irc_umode_set` without the privilege ends, without undefined
-- behaviour, with modes that exist, with "R" exactly if it was there before and "o" only if it was.
pub irc_umode_set_safe :
    (umode s : Bytes)
    → IsUmode umode
    → All (λ t. t < 128) s
    → (a : Answer) × (irc_umode_set false umode s ≡ done a)
      × IsUmode a.umode
      × ((contains a.umode b'R' ≡ true) ↔ (contains umode b'R' ≡ true))
      × (contains a.umode b'o' ≡ true → contains umode b'o' ≡ true)
irc_umode_set_safe umode s h plain =
    let (a, run, fits) = irc_umode_set_fits false umode s plain in
    let (modes, identified, operator) = answer_safe umode s a h run in
    (a, run, modes, identified, operator)
