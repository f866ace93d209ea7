-- ===== src/Irc/Umode/Bounds.antt =====
-- irc.c: the buffer that `irc_umode_set` writes the changes to, and the array that it reads.
use bitl_steam.Common.{
  ℕ, ◌+◌, ◌<◌, ◌≤◌, ◌≡◌, ◌≢◌, refl, Bool, [], ◌∷◌, Bytes, length, get_or, ltb, ◌==◌, arith, All,
  inl, inr, length-append, Bool-cases,
}
use bitl_steam.Common.Outcome.{done, fault, Outcome-cases}
use bitl_steam.Irc.Umode.Loop.{step_cases}
use bitl_steam.Irc.Umode.{
  Scan, Answer, umode_step, umode_scan, assign, note_change, change, is_allowed, first_scan,
  sign_of, irc_umode_set,
}

note_change-length : (t : ℕ) (sc : Scan) → length (note_change t sc).changes ≤ length sc.changes + 2
unfolding note_change
note_change-length t sc = elim (Bool-cases (sc.st == sc.st2)) [
  | inl e ↦ rw (e, length-append sc.changes (t ∷ [])) (omega arith)
  | inr e ↦ rw (e, length-append sc.changes (sign_of sc.st ∷ t ∷ [])) (omega arith)
]

step_grows :
    (allow_priv : Bool) (t : ℕ) (sc next : Scan)
    → umode_step allow_priv t sc ≡ done next
    → length next.changes ≤ length sc.changes + 2
step_grows allow_priv t sc next h = elim (step_cases allow_priv t sc next h) [
  | inl (same_m, same_changes, same_st2, sign) ↦ rw same_changes (omega arith)
  | inr (ascii, p, q, ok, same) ↦ rw same (elim (Bool-cases (get_or sc.m t 0 == sc.st)) [
    | inl e ↦ rw e (unfold assign in omega arith)
    | inr e ↦ rw e (unfold assign in note_change-length t sc)
  ])
]

step_in_bounds :
    (allow_priv : Bool) (t : ℕ) (sc : Scan) → t < 128 → umode_step allow_priv t sc ≢ fault
unfolding umode_step change
step_in_bounds allow_priv t sc h = ground arith

step_total :
    (allow_priv : Bool) (t : ℕ) (sc : Scan)
    → t < 128
    → (next : Scan) × (umode_step allow_priv t sc ≡ done next)
      × (length next.changes ≤ length sc.changes + 2)
step_total allow_priv t sc h = elim (Outcome-cases (umode_step allow_priv t sc)) [
  | inl e ↦ absurd (step_in_bounds allow_priv t sc h e)
  | inr (next, e) ↦ (next, e, step_grows allow_priv t sc next e)
]

scan_total :
    (allow_priv : Bool) (s : Bytes) (sc : Scan)
    → All (λ t. t < 128) s
    → length sc.changes ≤ 510
    → (last : Scan) × (umode_scan allow_priv s sc ≡ done last) × (length last.changes ≤ 510)
unfolding umode_scan
scan_total allow_priv [] sc h l = (sc, refl, l)
scan_total allow_priv (t ∷ s) sc (ht, h) l = elim (Bool-cases (ltb (length sc.changes) 509)) [
  | inl e ↦
      (let (next, step, grown) = step_total allow_priv t sc ht in
        rw (e, step) (scan_total allow_priv s next h (ground arith)))
  | inr e ↦ rw e (sc, refl, l)
]

-- On ASCII text `irc_umode_set` ends, and the changes fit in the 512 characters there are for them.
pub irc_umode_set_fits :
    (allow_priv : Bool) (umode s : Bytes)
    → All (λ t. t < 128) s
    → (a : Answer) × (irc_umode_set allow_priv umode s ≡ done a) × (length a.changes + 1 ≤ 511)
unfolding irc_umode_set
irc_umode_set_fits allow_priv umode s h =
    let (last, run, l) =
      scan_total allow_priv s (first_scan umode) h (unfold first_scan in omega arith) in
    rw run (_, refl, omega arith)

-- A minus and a byte from 128 up is all a client needs to send to reach outside of the array.
pub irc_umode_set_escapes :
    (allow_priv : Bool) (umode s : Bytes) (c : ℕ)
    → 127 < c
    → irc_umode_set allow_priv umode (b'-' ∷ c ∷ s) ≡ fault
unfolding irc_umode_set umode_scan umode_step first_scan is_allowed change
irc_umode_set_escapes allow_priv umode s c h = ground arith
