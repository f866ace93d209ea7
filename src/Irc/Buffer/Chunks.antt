-- ===== src/Irc/Buffer/Chunks.antt =====
-- irc.c: the complete lines of a read buffer and what is behind them.
use bitl_steam.Common.{
  ℕ, ◌≡◌, refl, ap, Bool, true, false, Option, none, some, List, [], ◌∷◌, ◌++◌, append-nil,
  append_assoc, Bytes, arith, if◌then◌else◌, Bool-cases, inl, inr, ◌∙◌, sym, All, All-append,
}
use bitl_steam.Irc.Line.{push}
use bitl_steam.Irc.Buffer.{
  is_newline, starts_line, splitlines, Client, handle_line, process_lines, process,
}

-- The lines of a buffer that are complete, in order, and the rest, as `irc_process` takes them.
abbrev pub complete : List Bytes → List Bytes × Bytes
complete [] = ([], [])
complete ([] ∷ more) = ([], [])
complete ((c ∷ line) ∷ []) = ([], c ∷ line)
complete ((c ∷ line) ∷ next ∷ more) =
    let (lines, rest) = complete (next ∷ more) in ((c ∷ line) ∷ lines, rest)

unfoldable pub lines_of : Bytes → List Bytes
lines_of buffer = (complete (splitlines buffer)).0

unfoldable pub rest_of : Bytes → Bytes
rest_of buffer = (complete (splitlines buffer)).1

-- What a reader of lines should do: it skips line ends where no line has begun. `cur` is the line so
-- far.
abbrev ended : Bytes → List Bytes × Bytes → List Bytes × Bytes
ended [] r = r
ended (c ∷ cur) r = ((c ∷ cur) ∷ r.0, r.1)

unfoldable pub scan : Bytes → Bytes → List Bytes × Bytes
scan cur [] = ([], cur)
scan cur (c ∷ s) =
    let fresh = scan [] s in
    let longer = scan (cur ++ c ∷ []) s in if is_newline c then (ended cur fresh) else longer

complete_empty_line :
    (c : ℕ) (s : Bytes) → is_newline c ≡ true → (l : List Bytes) × (splitlines (c ∷ s) ≡ [] ∷ l)
unfolding splitlines
complete_empty_line c [] h = (splitlines [], ground arith)
complete_empty_line c (d ∷ s) h = elim (Bool-cases (is_newline d)) [
  | inl e ↦ let (l, q) = complete_empty_line d s e in (l, ground (arith, q))
  | inr e ↦ (splitlines (d ∷ s), ground arith)
]

-- A buffer whose first character ends a line is dropped whole.
pub newline_drops :
    (c : ℕ) (s : Bytes) → is_newline c ≡ true → (lines_of (c ∷ s) ≡ []) × (rest_of (c ∷ s) ≡ [])
unfolding lines_of rest_of
newline_drops c s h =
    let (l, e) = complete_empty_line c s h in (rw (e, lines_of) refl, rw (e, rest_of) refl)

splitlines_some : (s : Bytes) → (l : Bytes) × (more : List Bytes) × (splitlines s ≡ l ∷ more)
unfolding splitlines push
splitlines_some [] = ([], [], refl)
splitlines_some (c ∷ s) =
    let (l, more, e) = splitlines_some s in
    elim (Bool-cases (is_newline c)) [
      | inl h ↦ elim (Bool-cases (starts_line s)) [
        | inl k ↦ (l, more, ground arith)
        | inr k ↦ ([], splitlines s, ground arith)
      ]
      | inr h ↦ (c ∷ l, more, ground arith)
    ]

-- A text in front of the first line.
abbrev prepend : Bytes → List Bytes → List Bytes
prepend cur [] = []
prepend cur (l ∷ more) = (cur ++ l) ∷ more

prepend-push :
    (cur : Bytes) (c : ℕ) (l : List Bytes) → prepend cur (push c l) ≡ prepend (cur ++ c ∷ []) l
unfolding push
prepend-push cur c [] = refl
prepend-push cur c (x ∷ l) = rw (append_assoc cur (c ∷ []) x) refl

complete-cons :
    (c : ℕ) (line : Bytes) (s : Bytes)
    → complete ((c ∷ line) ∷ splitlines s)
      ≡ ((c ∷ line) ∷ (complete (splitlines s)).0, (complete (splitlines s)).1)
complete-cons c line s = let (l, more, e) = splitlines_some s in rw e refl

prepend-nil : (l : List Bytes) → prepend [] l ≡ l
prepend-nil [] = refl
prepend-nil (x ∷ l) = refl

scan_skip : (cur s : Bytes) → starts_line s ≡ true → scan cur s ≡ ended cur (scan [] s)
unfolding scan
scan_skip cur [] h = cc
scan_skip cur (c ∷ s) h = rw h refl

complete-scan :
    (s cur : Bytes)
    → (cur ≡ [] → starts_line s ≡ false)
    → complete (prepend cur (splitlines s)) ≡ scan cur s
unfolding scan splitlines
complete-scan [] [] h = refl
complete-scan [] (c ∷ cur) h = rw (append-nil cur) refl
complete-scan (c ∷ s) [] h =
    rw (h refl) (rw (prepend-push [] c (splitlines s)) (complete-scan s (c ∷ []) (λ q. cc)))
complete-scan (c ∷ s) (d ∷ cur) h = elim (Bool-cases (is_newline c)) [
  | inl e ↦ elim (Bool-cases (starts_line s)) [
    | inl k ↦ rw (e, k) (complete-scan s (d ∷ cur) (λ q. cc) ∙ scan_skip (d ∷ cur) s k)
    | inr k ↦
        rw (e, k)
          (ap (λ r. complete ((d ∷ r) ∷ splitlines s)) (append-nil cur)
            ∙ complete-cons d cur s
            ∙ ap (ended (d ∷ cur))
                (ap complete (sym (prepend-nil (splitlines s))) ∙ complete-scan s [] (λ q. k)))
  ]
  | inr e ↦ rw e (
      rw (prepend-push (d ∷ cur) c (splitlines s))
        (complete-scan s (d ∷ (cur ++ c ∷ [])) (λ q. cc)))
]

-- A buffer that does not begin with a line end is cut as it should be.
pub lines_of-scan : (s : Bytes) → starts_line s ≡ false → (lines_of s, rest_of s) ≡ scan [] s
unfolding lines_of rest_of
lines_of-scan s h = ap complete (sym (prepend-nil (splitlines s))) ∙ complete-scan s [] (λ q. h)

abbrev join_scan : List Bytes × Bytes → Bytes → List Bytes × Bytes
join_scan (lines, cur) u = let (more, rest) = scan cur u in (lines ++ more, rest)

ended-join :
    (cur : Bytes) (r : List Bytes × Bytes) (u : Bytes)
    → ended cur (join_scan r u) ≡ join_scan (ended cur r) u
ended-join [] r u = refl
ended-join (c ∷ cur) r u = refl

scan-append : (s u cur : Bytes) → scan cur (s ++ u) ≡ join_scan (scan cur s) u
unfolding scan
scan-append [] u cur = refl
scan-append (c ∷ s) u cur = elim (Bool-cases (is_newline c)) [
  | inl e ↦ rw e (rw (scan-append s u []) (ended-join cur (scan [] s) u))
  | inr e ↦ rw e (scan-append s u (cur ++ c ∷ []))
]

abbrev pub IsPlain : Bytes → Type 0
IsPlain = All (λ c. is_newline c ≡ false)

pub scan_plain : (r u cur : Bytes) → IsPlain r → scan cur (r ++ u) ≡ scan (cur ++ r) u
unfolding scan
scan_plain [] u cur h = rw (append-nil cur) refl
scan_plain (c ∷ r) u cur (hc, h) =
    rw hc (scan_plain r u (cur ++ c ∷ []) h ∙ ap (λ x. scan x u) (append_assoc cur (c ∷ []) r))

ended_rest : (cur : Bytes) (r : List Bytes × Bytes) → (ended cur r).1 ≡ r.1
ended_rest [] r = refl
ended_rest (c ∷ cur) r = refl

pub rest-IsPlain : (s cur : Bytes) → IsPlain cur → IsPlain (scan cur s).1
unfolding scan
rest-IsPlain [] cur h = h
rest-IsPlain (c ∷ s) cur h = elim (Bool-cases (is_newline c)) [
  | inl e ↦ rw e (rw (ended_rest cur (scan [] s)) (rest-IsPlain s [] tt))
  | inr e ↦ rw e (rest-IsPlain s (cur ++ c ∷ []) (All-append _ cur (c ∷ []) h (e, tt)))
]

scan_again : (s u : Bytes) → scan [] (s ++ u) ≡ join_scan ((scan [] s).0, []) ((scan [] s).1 ++ u)
scan_again s u =
    scan-append s u []
    ∙ ap (λ (r : List Bytes × Bytes). ((scan [] s).0 ++ r.0, r.1))
        (sym (scan_plain (scan [] s).1 u [] (rest-IsPlain s [] tt)))

starts-append :
    (t u : Bytes)
    → starts_line t ≡ false
    → starts_line (rest_of t ++ u) ≡ false
    → starts_line (t ++ u) ≡ false
unfolding rest_of splitlines
starts-append [] u h k = k
starts-append (c ∷ t) u h k = h

-- A text that comes in two reads gives the same lines and the same rest as in one read, if neither
-- the first read nor the buffer at the second begins with a line end.
pub lines_of-append :
    (t u : Bytes)
    → starts_line t ≡ false
    → starts_line (rest_of t ++ u) ≡ false
    → (lines_of (t ++ u) ≡ lines_of t ++ lines_of (rest_of t ++ u))
      × (rest_of (t ++ u) ≡ rest_of (rest_of t ++ u))
lines_of-append t u h k = (ap (λ r. r.0) both, ap (λ r. r.1) both)
  where
    both :
        ◌≡◌ {A = List Bytes × Bytes}
          (lines_of (t ++ u), rest_of (t ++ u))
          (lines_of t ++ lines_of (rest_of t ++ u), rest_of (rest_of t ++ u))
    both =
        lines_of-scan (t ++ u) (starts-append t u h k)
        ∙ scan_again t u
        ∙ ap (λ (r : List Bytes × Bytes). join_scan (r.0, []) (r.1 ++ u)) (sym (lines_of-scan t h))
        ∙ ap (λ (r : List Bytes × Bytes). (lines_of t ++ r.0, r.1))
            (sym (lines_of-scan (rest_of t ++ u) k))

-- What is left in the buffer behind the lines: nothing, or the text of an incomplete line.
abbrev pub kept : Bytes → Option Bytes
kept [] = none
kept (c ∷ s) = some (c ∷ s)

module _ {W : Type 0} (client : Client W) where
  -- The lines are handled in order, as long as the connection is there.
  unfoldable pub feed : W → List Bytes → W × Bool
  feed w [] = (w, true)
  feed w (line ∷ more) =
      let w' = handle_line client w line in
      let rest = feed w' more in if client.alive w' then rest else (w', false)

  -- The buffer after the lines were handled.
  abbrev pub buffered : Bytes → Bytes → W × Bool → W × Option Bytes
  buffered old rest (w, true) = (w, kept rest)
  buffered old rest (w, false) = (w, some old)

  process-feed_lines :
      (w : W) (old : Bytes) (l : List Bytes)
      → process_lines client w old l ≡ buffered old (complete l).1 (feed w (complete l).0)
  unfolding process_lines feed
  process-feed_lines w old [] = refl
  process-feed_lines w old ([] ∷ more) = refl
  process-feed_lines w old ((c ∷ line) ∷ []) = refl
  process-feed_lines w old ((c ∷ line) ∷ next ∷ more) =
      elim (Bool-cases (client.alive (handle_line client w (c ∷ line)))) [
        | inl e ↦ rw e (process-feed_lines (handle_line client w (c ∷ line)) old (next ∷ more))
        | inr e ↦ rw e refl
      ]

  -- `irc_process` handles the complete lines in order and keeps the incomplete one.
  pub process-feed :
      (w : W) (buffer : Bytes)
      → process client w (some buffer) ≡ buffered buffer (rest_of buffer) (feed w (lines_of buffer))
  unfolding process lines_of rest_of
  process-feed w buffer = process-feed_lines w buffer (splitlines buffer)

  -- Every buffer that begins with a line end is emptied without handling any of its lines.
  pub process_drops :
      (w : W) (c : ℕ) (s : Bytes)
      → is_newline c ≡ true
      → process client w (some (c ∷ s)) ≡ (w, none)
  process_drops w c s h =
      let (lines, rest) = newline_drops c s h in
      process-feed w (c ∷ s) ∙ rw (lines, rest) (unfold feed in refl)
