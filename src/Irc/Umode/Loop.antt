-- ===== src/Irc/Umode/Loop.antt =====
-- irc.c: the loop of `irc_umode_set`.
use bitl_steam.Common.{
  ℕ, ◌<◌, ◌≡◌, ◌≢◌, Bool, true, [], ◌∷◌, Bytes, length, get_or, set, ltb, ◌==◌, if◌then◌else◌,
  arith, ◌⊎◌, inl, inr, Bool-cases,
}
use mathlib.Core.Path.{subst}
use bitl_steam.Common.Outcome.{done, >>=-eq-done}
use bitl_steam.Irc.Umode.{
  Answer, first_scan, umode_string, irc_umode_set, Scan, umode_step, umode_scan, note_change,
  assign, change, is_allowed,
}

-- What every step keeps, the loop keeps.
pub scan_induction {ℓ} :
    (P : Scan → Type ℓ) (allow_priv : Bool)
    → ((t : ℕ) (sc next : Scan) → P sc → umode_step allow_priv t sc ≡ done next → P next)
    → (s : Bytes) (sc last : Scan) → P sc
    → umode_scan allow_priv s sc ≡ done last
    → P last
unfolding umode_scan
scan_induction P allow_priv keep [] sc last p h = subst P (cc) p
scan_induction P allow_priv keep (t ∷ s) sc last p h =
    elim (Bool-cases (ltb (length sc.changes) 509)) [
      | inl e ↦
          let (next, step, rest) =
            >>=-eq-done (umode_step allow_priv t sc) (umode_scan allow_priv s) (rw e at h) in
          scan_induction P allow_priv keep s next last (keep t sc next p step) rest
      | inr e ↦ subst P (ground arith) p
    ]

-- What `is_allowed` says of a character and an array, for a step.
pub step_cases :
    (allow_priv : Bool) (t : ℕ) (sc next : Scan)
    → umode_step allow_priv t sc ≡ done next
    → ((next.m ≡ sc.m)
        × (next.changes ≡ sc.changes)
        × (next.st2 ≡ sc.st2)
        × (((t ≢ b'+') × (t ≢ b'-') × (next.st ≡ sc.st))
            ⊎ ((t ≡ b'+') × (next.st ≡ 1))
            ⊎ ((t ≡ b'-') × (next.st ≡ 0))))
      ⊎ ((t < 128)
          × (t ≢ b'+')
          × (t ≢ b'-')
          × (is_allowed allow_priv sc.st t ≡ true)
          × (next ≡ assign t (if get_or sc.m t 0 == sc.st then sc else note_change t sc)))
unfolding umode_step change
step_cases allow_priv t sc next h = ground arith

pub assign_lem :
    (t : ℕ) (sc : Scan)
    → let next : Scan = assign t (if get_or sc.m t 0 == sc.st then sc else note_change t sc) in
      (next.m ≡ set sc.m t sc.st) × (next.st ≡ sc.st)
unfolding assign note_change
assign_lem t sc = ground arith

abbrev pub answer_of : Scan → Answer
answer_of sc = record { umode = umode_string sc.m; changes = sc.changes; badflag = sc.badflag }

-- An invariant of the steps, at the end of the loop that an answer comes from.
pub answer_induction {ℓ} :
    (P : Scan → Type ℓ) (allow_priv : Bool) (umode s : Bytes) (a : Answer)
    → ((t : ℕ) (sc next : Scan) → P sc → umode_step allow_priv t sc ≡ done next → P next)
    → P (first_scan umode)
    → irc_umode_set allow_priv umode s ≡ done a
    → (last : Scan) × P last × (answer_of last ≡ a)
unfolding irc_umode_set
answer_induction P allow_priv umode s a keep p h =
    let (last, run, e) =
      >>=-eq-done (umode_scan allow_priv s (first_scan umode)) (λ sc. done (answer_of sc)) h in
    (last, scan_induction P allow_priv keep s (first_scan umode) last p run, (ground arith))
