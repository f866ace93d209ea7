-- ===== src/Irc/Read/Stream.antt =====
-- bitlbee.c: a client's text over several reads.
use bitl_steam.Common.{
  c_string, ◌≤◌, ◌≡◌, ◌≢◌, refl, ap, sym, ◌∙◌, Bool, true, false, Option, none, List, [], ◌∷◌, ◌++◌,
  append_assoc, append-nil, Bytes, length, ltb, arith, Bool-cases, false≢true, inl, inr,
}
use bitl_steam.Irc.Buffer.{is_newline, starts_line, Client, handle_line}
use bitl_steam.Irc.Buffer.Chunks.{
  lines_of, rest_of, lines_of-append, newline_drops, feed, buffered, kept, process-feed,
}
use bitl_steam.Irc.Buffer.Rests.{IsRest, nil-IsRest, rest_of-IsRest}
use bitl_steam.Irc.Read.{
  Received, ended, again, failed, got, goes_on, buffer_text, processed, client_read,
}

-- The text of a list of reads.
abbrev pub text : List Received → Bytes
text [] = []
text (got line ∷ more) = c_string line ++ text more
text (r ∷ more) = text more

-- The buffer, with `r` left of an incomplete line, never begins with a line end.
abbrev pub AreCut : Bytes → List Received → Type 0
AreCut r [] = Unit
AreCut r (got line ∷ more) =
    (starts_line (r ++ c_string line) ≡ false) × AreCut (rest_of (r ++ c_string line)) more
AreCut r (_ ∷ more) = AreCut r more

kept_text : (r : Bytes) → buffer_text (kept r) ≡ r
kept_text [] = refl
kept_text (c ∷ r) = refl

IsRest-starts : (r : Bytes) → IsRest r → starts_line r ≡ false
IsRest-starts [] h = refl
IsRest-starts (c ∷ r) (_, same) = elim (Bool-cases (is_newline c)) [
  | inl newline ↦ (let (_, nothing) = newline_drops c r newline in absurd (cc))
  | inr other ↦ other
]

starts_joined :
    (r z u : Bytes)
    → starts_line (r ++ z) ≡ false
    → starts_line (rest_of (r ++ z) ++ u) ≡ false
    → starts_line ((r ++ z) ++ u) ≡ false
starts_joined [] [] u h k =
    (let (_, nothing) = nil-IsRest in sym (ap (λ x. starts_line (x ++ u)) nothing) ∙ k)
starts_joined [] (d ∷ z) u h k = h
starts_joined (c ∷ r) z u h k = h

AreCut-starts :
    (r : Bytes) (rs : List Received) → IsRest r → AreCut r rs → starts_line (r ++ text rs) ≡ false
AreCut-starts r [] rest cut = ap starts_line (append-nil r) ∙ IsRest-starts r rest
AreCut-starts r (ended ∷ more) rest cut = AreCut-starts r more rest cut
AreCut-starts r (again ∷ more) rest cut = AreCut-starts r more rest cut
AreCut-starts r (failed ∷ more) rest cut = AreCut-starts r more rest cut
AreCut-starts r (got line ∷ more) rest (h, cut) =
    ap starts_line (sym (append_assoc r (c_string line) (text more)))
    ∙ starts_joined r (c_string line) (text more) h (
        AreCut-starts (rest_of (r ++ c_string line)) more (rest_of-IsRest (r ++ c_string line) h)
          cut)

module _ {W : Type 0} (client : Client W) where
  -- The reads of a client, in order, none of which aborts or frees it.
  pub data Reads : W → Option Bytes → List Received → W → Option Bytes → Type 0 where
    rests : (w : W) (b : Option Bytes) → Reads w b [] w b
    reads :
        {w w' w'' : W} {b b' b'' : Option Bytes} (r : Received) {more : List Received}
        → client_read client w b r ≡ goes_on w' b'
        → Reads w' b' more w'' b''
        → Reads w b (r ∷ more) w'' b''

  feed_up :
      (w : W) (line : Bytes) (a : List Bytes)
      → client.alive (handle_line client w line) ≡ true
      → feed client w (line ∷ a) ≡ feed client (handle_line client w line) a
  unfolding feed
  feed_up w line a h = rw h

  feed_down :
      (w : W) (line : Bytes) (a : List Bytes)
      → client.alive (handle_line client w line) ≡ false
      → feed client w (line ∷ a) ≡ (handle_line client w line, false)
  unfolding feed
  feed_down w line a h = rw h

  feed-append :
      (w w' : W) (a b : List Bytes)
      → feed client w a ≡ (w', true)
      → feed client w (a ++ b) ≡ feed client w' b
  feed-append w w' [] b h = unfold feed in ap (λ (x : W × Bool). feed client x.0 b) h
  feed-append w w' (line ∷ a) b h =
      let next = handle_line client w line in
      elim (Bool-cases (client.alive next)) [
        | inl up ↦
            feed_up w line (a ++ b) up ∙ feed-append next w' a b (sym (feed_up w line a up) ∙ h)
        | inr down ↦
            absurd (false≢true (ap (λ (x : W × Bool). x.1) (sym (feed_down w line a down) ∙ h)))
      ]

  feed_dead :
      (w : W) (a : List Bytes)
      → (feed client w a).1 ≡ false
      → client.alive (feed client w a).0 ≡ false
  feed_dead w [] h = unfold feed in absurd (cc)
  feed_dead w (line ∷ a) h =
      let next = handle_line client w line in
      elim (Bool-cases (client.alive next)) [
        | inl up ↦
            (rw (feed_up w line a up)
              (feed_dead next a (ap (λ (x : W × Bool). x.1) (sym (feed_up w line a up)) ∙ h)))
        | inr down ↦ (rw (feed_down w line a down) down)
      ]

  -- A read event that goes on has handled the lines to the end, and the rest is in the buffer.
  processed-goes_on :
      (old rest : Bytes) (x : W × Bool) (w' : W) (b' : Option Bytes)
      → (x.1 ≡ false → client.alive x.0 ≡ false)
      → processed client (buffered client old rest x) ≡ goes_on w' b'
      → (x ≡ (w', true)) × (b' ≡ kept rest) × (length (buffer_text b') ≤ 1024)
  unfolding processed
  processed-goes_on old rest (w, true) w' b' dead e =
      let b = kept rest in
      let inj : (w ≡ w') × (b ≡ b') × (ltb 1024 (length (buffer_text b)) ≡ false) =
        (ground arith) in
      let (same, left, short) = inj in (ap (λ x. (x, true)) same, sym left, (ground arith))
  processed-goes_on old rest (w, false) w' b' dead e =
      (let gone_now = dead refl in absurd (ground arith))

  -- One read event that takes bytes.
  got-goes_on :
      (w w' : W) (b b' : Option Bytes) (line : Bytes)
      → client_read client w b (got line) ≡ goes_on w' b'
      → (feed client w (lines_of (buffer_text b ++ c_string line)) ≡ (w', true))
        × (b' ≡ kept (rest_of (buffer_text b ++ c_string line)))
        × (length (buffer_text b') ≤ 1024)
  unfolding client_read
  got-goes_on w w' b b' line e =
      let t = buffer_text b ++ c_string line in
      processed-goes_on t (rest_of t) (feed client w (lines_of t)) w' b' (feed_dead w (lines_of t))
        (ap (processed client) (sym (process-feed client w t)) ∙ e)

  ended_stops :
      (w : W) (b : Option Bytes) {w' : W} {b' : Option Bytes}
      → client_read client w b ended ≢ goes_on w' b'
  unfolding client_read
  ended_stops w b e = cc

  failed_stops :
      (w : W) (b : Option Bytes) {w' : W} {b' : Option Bytes}
      → client_read client w b failed ≢ goes_on w' b'
  unfolding client_read
  failed_stops w b e = cc

  again_same :
      {w w' : W} {b b' : Option Bytes}
      → client_read client w b again ≡ goes_on w' b'
      → (w ≡ w') × (b ≡ b')
  unfolding client_read
  again_same e = (ground arith)

  -- What the commands have seen and what is left, for the text of all reads behind a rest.
  abbrev Seen : Bytes → W → W → Option Bytes → Type 0
  Seen t w w' b' = (feed client w (lines_of t) ≡ (w', true)) × (b' ≡ kept (rest_of t))

  rests-Seen : (r : Bytes) (w : W) → IsRest r → Seen (r ++ []) w w (kept r)
  unfolding feed
  rests-Seen r w (none_yet, same) =
      (rw (append-nil r, none_yet) refl, (rw (append-nil r, same) refl))

  Seen-append :
      (r z u : Bytes) (w w₁ w' : W) (b' : Option Bytes)
      → starts_line (r ++ z) ≡ false
      → starts_line (rest_of (r ++ z) ++ u) ≡ false
      → feed client w (lines_of (r ++ z)) ≡ (w₁, true)
      → Seen (rest_of (r ++ z) ++ u) w₁ w' b'
      → Seen (r ++ (z ++ u)) w w' b'
  Seen-append r z u w w₁ w' b' h k front (lines, rest) =
      let (all_lines, all_rest) = lines_of-append (r ++ z) u h k in
      let assoc = sym (append_assoc r z u) in
      (
        ap (λ t. feed client w (lines_of t)) assoc
            ∙ ap (feed client w) all_lines
            ∙ feed-append w w₁ (lines_of (r ++ z)) (lines_of (rest_of (r ++ z) ++ u)) front
            ∙ lines,
        rest ∙ ap kept (sym all_rest) ∙ ap (λ t. kept (rest_of t)) (sym assoc),
      )

  Reads-Seen :
      (r : Bytes) (rs : List Received) {w w' : W} {b b' : Option Bytes}
      → IsRest r
      → b ≡ kept r
      → AreCut r rs
      → Reads w b rs w' b'
      → Seen (r ++ text rs) w w' b'
  Reads-Seen r [] {w = w} rest e cut (rests w₀ b₀) = rw e (rests-Seen r w₀ rest)
  Reads-Seen r (got line ∷ more) {w = w} {w' = w'} {b = b} {b' = b'} rest e (h, cut)
        (reads {w' = w₁} {b' = b₁} r₀ step run) =
      let t = r ++ c_string line in
      let was : buffer_text b ≡ r = ap buffer_text e ∙ kept_text r in
      let (front, left, _) = got-goes_on w w₁ b b₁ line step in
      let front' = ap (λ x. feed client w (lines_of (x ++ c_string line))) (sym was) ∙ front in
      let left' = left ∙ ap (λ x. kept (rest_of (x ++ c_string line))) was in
      let ahead = AreCut-starts (rest_of t) more (rest_of-IsRest t h) cut in
      Seen-append r (c_string line) (text more) w w₁ w' b' h ahead front'
        (Reads-Seen (rest_of t) more (rest_of-IsRest t h) left' cut run)
  Reads-Seen r (ended ∷ more) rest e cut (reads r₀ step run) = absurd (ended_stops _ _ step)
  Reads-Seen r (failed ∷ more) rest e cut (reads r₀ step run) = absurd (failed_stops _ _ step)
  Reads-Seen r (again ∷ more) rest e cut (reads {b' = b₁} r₀ step run) =
      let (same_state, same_buffer) = again_same step in
      rw same_state (Reads-Seen r more rest (sym same_buffer ∙ e) cut run)

  -- The commands that a client's reads execute are the complete lines of the text that they brought,
  -- in order, however the text is cut into reads, if no cut leaves a line end at the start of the
  -- buffer; what is behind the last line is in the buffer.
  pub Reads-stream :
      {w w' : W} {rs : List Received} {b' : Option Bytes}
      → Reads w none rs w' b'
      → AreCut [] rs
      → (feed client w (lines_of (text rs)) ≡ (w', true)) × (b' ≡ kept (rest_of (text rs)))
  Reads-stream {rs = rs} run cut = Reads-Seen [] rs nil-IsRest refl cut run
