-- ===== src/Account/Reconnect.antt =====
-- protocols/account.c: the delay before an account connects again.
pub mod Growth
mod Examples
use bitl_steam.Common.{
  ℕ, zero, suc, ◌+◌, ◌-◌, ◌*◌, ◌^◌, min, Bool, true, false, ◌||◌, [], ◌∷◌, Bytes, is_digit, ltb,
  ◌==◌, if◌then◌else◌,
}
use bitl_steam.Common.Outcome.{Outcome, done, fault, ◌>>=◌}

-- `struct account_reconnect_delay`
pub record Delay : Type 0 where
  pub start : ℕ
  pub op : ℕ
  pub step : ℕ
  pub max : ℕ

-- `while (*value && isdigit(*value)) n = n * 10 + *value++ - '0'`, and the text behind. An `int` that
-- overflows is undefined.
unfoldable pub number : ℕ → Bytes → Outcome (ℕ × Bytes)
number n [] = done (n, [])
number n (c ∷ s) =
    let rest = number (n * 10 + c - b'0') s in
    if is_digit c then (if ltb (n * 10 + c) (2 ^ 31) then rest else fault) else done (n, c ∷ s)

-- A whole day.
abbrev pub day : ℕ
day = 86400

unfoldable pub after_step : ℕ → ℕ → ℕ → Bytes → Outcome (Delay × Bool)
after_step start op step [] = done (record { start = start; op = op; step = step; max = day }, true)
after_step start op step (c ∷ s) =
    let limit = number 0 s >>= λ r.
    done (record { start = start; op = op; step = step; max = r.0 }, ltb 0 r.0) in
    if c == b'<'
    then limit
    else done (record { start = start; op = op; step = step; max = day }, false)

unfoldable pub after_start : ℕ → Bytes → Outcome (Delay × Bool)
after_start start [] = done (record { start = start; op = 0; step = 0; max = day }, true)
after_start start (c ∷ s) =
    let step = number 0 s >>= λ r. after_step start c r.0 r.1 in
    if c == b'+' || c == b'*'
    then step
    else done (record { start = start; op = 0; step = 0; max = day }, false)

unfoldable pub account_reconnect_delay_parse : Bytes → Outcome (Delay × Bool)
account_reconnect_delay_parse value = number 0 value >>= λ r. after_start r.0 r.1

-- A result that an `int` holds.
abbrev pub int_fits : ℕ → Outcome ℕ
int_fits n = if ltb n (2 ^ 31) then done n else fault

-- `a->auto_reconnect_delay` after the step, before the maximum.
unfoldable pub stepped : Delay → ℕ → Outcome ℕ
stepped p delay =
    if delay == 0
    then done p.start
    else if p.op == b'+'
    then int_fits (delay + p.step)
    else if p.op == b'*'
    then int_fits (delay * p.step)
    else done delay

unfoldable pub next_delay : Delay × Bool → ℕ → Outcome ℕ
next_delay (p, true) delay = stepped p delay >>= λ d. done (if ltb p.max d then p.max else d)
next_delay (p, false) delay = done 0

unfoldable pub account_reconnect_delay : Bytes → ℕ → Outcome ℕ
account_reconnect_delay setting delay =
    account_reconnect_delay_parse setting >>= λ p. next_delay p delay
