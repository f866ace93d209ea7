-- ===== src/Irc/Umode/Replay.antt =====
-- irc.c: the text of the reply of `irc_umode_set`, as the client reads it.
use bitl_steam.Common.{
  All, ◌<◌, ℕ, ◌≤◌, ◌≡◌, ◌≢◌, refl, sym, Bool, ◌||◌, List, [], ◌∷◌, ◌++◌, Bytes, get_or, set, ◌==◌,
  if◌then◌else◌, arith, inl, inr, set-get_or, Bool-cases,
}
use bitl_steam.Common.Outcome.{done}
use bitl_steam.Irc.Umode.Bounds.{irc_umode_set_fits}
use bitl_steam.Irc.Umode.{
  Scan, Answer, umode_step, note_change, assign, mode_array, first_scan, umode_string,
  irc_umode_set, sign_of,
}
use bitl_steam.Irc.Umode.Loop.{answer_induction, step_cases}

-- A client that reads changes: the sign that is in force, and the modes it knows of.
pub record Client : Type 0 where
  pub sign : ℕ
  pub modes : List ℕ

unfoldable pub read : ℕ → Client → Client
read t k =
    if t == b'+' || t == b'-'
    then record k { sign = if t == b'+' then 1 else 0 }
    else record k { modes = set k.modes t k.sign }

unfoldable pub replay : Bytes → Client → Client
replay [] k = k
replay (t ∷ s) k = replay s (read t k)

replay-append : (s r : Bytes) (k : Client) → replay (s ++ r) k ≡ replay r (replay s k)
unfolding replay
replay-append [] r k = refl
replay-append (t ∷ s) r k = replay-append s r (read t k)

-- What was written so far takes the client from the first array to this one.
Follows : List ℕ → Scan → Type 0
Follows m sc =
    (sc.st ≤ 1)
    × (replay sc.changes (record { sign = 2; modes = m }) ≡ record { sign = sc.st2; modes = sc.m })

replay_sign :
    (t : ℕ) (sc : Scan)
    → sc.st ≤ 1
    → t ≢ b'+'
    → t ≢ b'-'
    → replay (sign_of sc.st ∷ t ∷ []) (record { sign = sc.st2; modes = sc.m })
      ≡ record { sign = sc.st; modes = set sc.m t sc.st }
unfolding replay read
replay_sign t sc h p q = ground arith

replay_mode :
    (t : ℕ) (sc : Scan)
    → sc.st ≡ sc.st2
    → t ≢ b'+'
    → t ≢ b'-'
    → replay (t ∷ []) (record { sign = sc.st2; modes = sc.m })
      ≡ record { sign = sc.st2; modes = set sc.m t sc.st }
unfolding replay read
replay_mode t sc h p q = ground arith

set_same : (m : List ℕ) (t v : ℕ) → get_or m t 0 ≡ v → set m t v ≡ m
set_same m t v e = rw (sym e) (set-get_or m t 0)

note_change-Follows :
    (m : List ℕ) (t : ℕ) (sc : Scan)
    → Follows m sc
    → t ≢ b'+'
    → t ≢ b'-'
    → Follows m (assign t (note_change t sc))
unfolding Follows note_change assign
note_change-Follows m t sc (small, e) p q =
    let start : Client = record { sign = 2; modes = m } in
    elim (Bool-cases (sc.st == sc.st2)) [
      | inl kept ↦ rw kept (
        small,
        rw (replay-append sc.changes (t ∷ []) start, e) (replay_mode t sc (ground arith) p q),
      )
      | inr new ↦ rw new (
        small,
        rw (replay-append sc.changes (sign_of sc.st ∷ t ∷ []) start, e)
            (replay_sign t sc small p q),
      )
    ]

assign-Follows :
    (m : List ℕ) (t : ℕ) (sc : Scan)
    → Follows m sc
    → t ≢ b'+'
    → t ≢ b'-'
    → Follows m (assign t (if get_or sc.m t 0 == sc.st then sc else note_change t sc))
assign-Follows m t sc h p q = elim (Bool-cases (get_or sc.m t 0 == sc.st)) [
  | inl same ↦
      rw same
        (unfold Follows in unfold assign in (h.0, rw (set_same sc.m t sc.st (ground arith)) h.1))
  | inr new ↦ rw new (note_change-Follows m t sc h p q)
]

step-Follows :
    (m : List ℕ) (allow_priv : Bool) (t : ℕ) (sc next : Scan)
    → Follows m sc
    → umode_step allow_priv t sc ≡ done next
    → Follows m next
step-Follows m allow_priv t sc next h e = elim (step_cases allow_priv t sc next e) [
  | inl (same_m, same_changes, same_st2, sign) ↦
      unfold Follows in rw (same_m, same_changes, same_st2) ((let small = h.0 in ground arith), h.1)
  | inr (ascii, p, q, ok, same) ↦ rw same (assign-Follows m t sc h p q)
]

first_scan-Follows : (umode : Bytes) → Follows (mode_array umode) (first_scan umode)
unfolding Follows first_scan replay
first_scan-Follows umode = (omega arith, refl)

replay_answer :
    (allow_priv : Bool) (umode s : Bytes) (a : Answer)
    → irc_umode_set allow_priv umode s ≡ done a
    → umode_string (replay a.changes (record { sign = 2; modes = mode_array umode })).modes
      ≡ a.umode
unfolding Follows
replay_answer allow_priv umode s a h =
    let m = mode_array umode in
    let (last, follows, e) =
      answer_induction (Follows m) allow_priv umode s a (step-Follows m allow_priv)
        (first_scan-Follows umode) h in
    rw (sym e, follows.1) refl

-- The reply tells the truth: for ASCII text, whatever it asks for and with or without the privilege,
-- `irc_umode_set` ends, without undefined behaviour, and a client that knows the old modes and
-- applies the changes that it is sent, character by character, has the new modes.
pub irc_umode_set-replay :
    (allow_priv : Bool) (umode s : Bytes)
    → All (λ t. t < 128) s
    → (a : Answer) × (irc_umode_set allow_priv umode s ≡ done a)
      × (umode_string (replay a.changes (record { sign = 2; modes = mode_array umode })).modes
          ≡ a.umode)
irc_umode_set-replay allow_priv umode s plain =
    let (a, run, fits) = irc_umode_set_fits allow_priv umode s plain in
    (a, run, replay_answer allow_priv umode s a run)
