-- ===== src/Account/Reconnect/Growth.antt =====
-- protocols/account.c: what the setting means, and how the delay develops.
use bitl_steam.Common.{
  ℕ, zero, suc, ◌+◌, ◌*◌, ◌/◌, ◌%◌, ◌^◌, ◌<◌, ◌≤◌, ◌≡◌, ◌⊎◌, refl, ◌∙◌, true, false, ◌||◌, [], ◌∷◌,
  ◌++◌, Bytes, is_digit, ltb, ◌==◌, if◌then◌else◌, arith, inl, inr,
}
use bitl_steam.Common.Outcome.{done}
use native.Mathlib.Nat.{mul-le-mul_left, mul-le-mul_right}
use bitl_steam.Stdio.{print_digits, print_nat}
use bitl_steam.Account.Reconnect.{
  Delay, number, after_step, after_start, account_reconnect_delay_parse, stepped, next_delay,
  account_reconnect_delay,
}

number-print_digits :
    (f n : ℕ) (out rest : Bytes)
    → n < f
    → n + 48 < 2 ^ 31
    → number 0 (print_digits f n out ++ rest) ≡ number n (out ++ rest)
unfolding print_digits number
number-print_digits zero n out rest h k = absurd (omega arith)
number-print_digits (suc f) n out rest h k =
    ground (arith, number-print_digits f (n / 10) ((b'0' + n % 10) ∷ out) rest)

-- What does not start with a digit.
abbrev IsStop : Bytes → Type 0
IsStop [] = Unit
IsStop (c ∷ s) = is_digit c ≡ false

number-stop : (n : ℕ) (s : Bytes) → IsStop s → number n s ≡ done (n, s)
unfolding number
number-stop n [] h = refl
number-stop n (c ∷ s) h = rw h

number-print_nat :
    (n : ℕ) (s : Bytes) → n + 48 < 2 ^ 31 → IsStop s → number 0 (print_nat n ++ s) ≡ done (n, s)
unfolding print_nat
number-print_nat n s k h = number-print_digits (suc n) n [] s (omega arith) k ∙ number-stop n s h

-- The setting with all its parts, as in "5*3<900".
abbrev pub spelled : ℕ → ℕ → ℕ → ℕ → Bytes
spelled start op step max =
    print_nat start ++ (op ∷ (print_nat step ++ (b'<' ∷ (print_nat max ++ []))))

-- A setting that spells three numbers below 2^31 - 48 with + or * and < between them is read as
-- these, and is valid if the maximum is not 0.
pub parse-spelled :
    (start op step max : ℕ)
    → (op == b'+' || op == b'*') ≡ true
    → start + 48 < 2 ^ 31
    → step + 48 < 2 ^ 31
    → max + 48 < 2 ^ 31
    → account_reconnect_delay_parse (spelled start op step max)
      ≡ done (record { start = start; op = op; step = step; max = max }, ltb 0 max)
unfolding account_reconnect_delay_parse after_start after_step
parse-spelled start op step max known a b c = rw (
  number-print_nat start (op ∷ (print_nat step ++ (b'<' ∷ (print_nat max ++ [])))) a (ground arith),
  known,
  number-print_nat step (b'<' ∷ (print_nat max ++ [])) b refl,
  number-print_nat max [] c tt,
)

-- What the next delay is to be: at most the maximum, and that or longer than the one before.
abbrev pub Grows : Delay → ℕ → ℕ → Type 0
Grows p delay next = (next ≤ p.max) × ((next ≡ p.max) ⊎ (delay < next))

stepped-plus :
    (p : Delay) (delay : ℕ)
    → 0 < delay
    → p.op ≡ b'+'
    → delay + p.step < 2 ^ 31
    → stepped p delay ≡ done (delay + p.step)
unfolding stepped
stepped-plus p delay pos plus room = ground arith

stepped-times :
    (p : Delay) (delay : ℕ)
    → 0 < delay
    → p.op ≡ b'*'
    → delay * p.step < 2 ^ 31
    → stepped p delay ≡ done (delay * p.step)
unfolding stepped
stepped-times p delay pos times room = ground arith

capped-Grows :
    (setting : Bytes) (p : Delay) (delay d : ℕ)
    → account_reconnect_delay_parse setting ≡ done (p, true)
    → stepped p delay ≡ done d
    → delay < d
    → (next : ℕ) × (account_reconnect_delay setting delay ≡ done next) × Grows p delay next
unfolding account_reconnect_delay next_delay
capped-Grows setting p delay d e s longer =
    ((if ltb p.max d then p.max else d), (rw (e, s)), (ground arith, ground arith))

-- With a valid setting whose step lengthens every delay, and that leaves room in an `int` for a step
-- from the maximum: from a delay above 0 and within the maximum, the next delay is within the maximum
-- too, and it is longer or it is the maximum.
pub delay-Grows :
    (setting : Bytes) (p : Delay) (delay : ℕ)
    → account_reconnect_delay_parse setting ≡ done (p, true)
    → 0 < delay
    → delay ≤ p.max
    → ((p.op ≡ b'+') × (0 < p.step) × (p.max + p.step < 2 ^ 31))
      ⊎ ((p.op ≡ b'*') × (1 < p.step) × (p.max * p.step < 2 ^ 31))
    → (next : ℕ) × (account_reconnect_delay setting delay ≡ done next) × Grows p delay next
delay-Grows setting p delay e pos le (inl (plus, more, room)) =
    capped-Grows setting p delay (delay + p.step) e (stepped-plus p delay pos plus (omega arith))
      (omega arith)
delay-Grows setting p delay e pos le (inr (times, more, room)) =
    let small : delay * p.step ≤ p.max * p.step = mul-le-mul_right p.step le in
    let large : delay * 2 ≤ delay * p.step = mul-le-mul_left delay (omega arith) in
    capped-Grows setting p delay (delay * p.step) e (stepped-times p delay pos times (omega arith))
      (omega arith)
