-- ===== src/Ini/Setting.antt =====
-- lib/ini.c: a line with a setting.
use bitl_steam.Common.{
  ℕ, ◌≡◌, ◌≢◌, refl, ap, sym, ◌∙◌, true, false, Option, some, [], ◌∷◌, ◌++◌, append_assoc,
  append-nil, Bytes, is_space, ◌==◌, arith, All, All-append,
}
use bitl_steam.Common.Split.{split_at, Lacks, split_at-append}
use bitl_steam.Ini.{
  strip_start, is_empty, strip_end, ini_strip_whitespace, keyed, entry, setting, stripped_line,
  parse_line,
}
use bitl_steam.Ini.Lines.{
  IsPad, Starts, IsTrimmed, IsPad-Lacks, strip_start-append, strip_end-pad, strip_end-append_pad,
  is_empty-append, strip_end-append, strip_padded, comment_text, cut_comment, Lacks-of, pad_newline,
}

-- A line of a setting in a file, with white space and a comment.
pub record Setting : Type 0 where
  pub indent : Bytes
  pub key : Bytes
  pub gap : Bytes
  pub gap_behind : Bytes
  pub value : Bytes
  pub trail : Bytes
  pub comment : Option Bytes

abbrev pub right_side : Setting → Bytes
right_side s = s.gap_behind ++ (s.value ++ s.trail)

abbrev pub setting_text : Setting → Bytes
setting_text s = s.indent ++ (s.key ++ (s.gap ++ b'=' ∷ right_side s))

-- A key is not empty, and does not look like a section.
abbrev pub StartsKey : Bytes → Type 0
StartsKey [] = ⊥
StartsKey (x ∷ s) = x ≢ b'['

pub record IsSetting (s : Setting) : Type 0 where
  pub indent : IsPad s.indent
  pub gap : IsPad s.gap
  pub gap_behind : IsPad s.gap_behind
  pub trail : IsPad s.trail
  pub key_trimmed : IsTrimmed s.key
  pub key_starts : StartsKey s.key
  pub key_plain : All (λ x. (x ≢ b'=') × (x ≢ b'#') × (x ≢ 10)) s.key
  pub value_trimmed : IsTrimmed s.value
  pub value_plain : All (λ x. (x ≢ b'#') × (x ≢ 10)) s.value

strip_right :
    (p s q : Bytes)
    → IsPad p
    → IsTrimmed s
    → IsPad q
    → ini_strip_whitespace (strip_end (p ++ (s ++ q))) ≡ s
strip_right p [] q before trimmed behind =
    rw (strip_end-pad (p ++ q) (All-append (λ x. (is_space x ≡ true) × (x ≢ 10)) p q before behind))
      (strip_padded [] [] [] tt (tt, unfold strip_end in refl) tt)
strip_right p (x ∷ s) q before (start, end) behind =
    let tail : strip_end (x ∷ s ++ q) ≡ x ∷ s = strip_end-append_pad (x ∷ s) q behind ∙ end in
    let whole : strip_end (p ++ (x ∷ s ++ q)) ≡ p ++ x ∷ s =
      strip_end-append p (x ∷ s ++ q) (ap is_empty tail) ∙ ap (λ r. p ++ r) tail in
    rw whole (
      ap (λ r. ini_strip_whitespace (p ++ r)) (sym (append-nil (x ∷ s)))
      ∙ strip_padded p (x ∷ s) [] before (start, end) tt)

Lacks-setting :
    (c : ℕ) (s : Setting)
    → IsSetting s
    → ((p : Bytes) → IsPad p → Lacks c p)
    → c ≢ b'='
    → Lacks c s.key
    → Lacks c s.value
    → Lacks c (setting_text s)
Lacks-setting c s i pad ne key value =
    All-append (λ x. x ≢ c) s.indent _ (pad s.indent i.indent)
      (All-append (λ x. x ≢ c) s.key _ key
        (All-append (λ x. x ≢ c) s.gap _ (pad s.gap i.gap)
          (
            (λ e. ne (sym e)),
            All-append (λ x. x ≢ c) s.gap_behind _ (pad s.gap_behind i.gap_behind)
                (All-append (λ x. x ≢ c) s.value s.trail value (pad s.trail i.trail)),
          )))

-- No line ends in a setting.
pub setting-Lacks_newline : (s : Setting) → IsSetting s → Lacks 10 (setting_text s)
setting-Lacks_newline s i =
    Lacks-setting 10 s i pad_newline (omega arith)
      (Lacks-of 10 (λ x. (x ≢ b'=') × (x ≢ b'#') × (x ≢ 10)) s.key (λ x h. h.2) i.key_plain)
      (Lacks-of 10 (λ x. (x ≢ b'#') × (x ≢ 10)) s.value (λ x h. h.1) i.value_plain)

setting-Lacks_hash : (s : Setting) → IsSetting s → Lacks b'#' (setting_text s)
setting-Lacks_hash s i =
    Lacks-setting b'#' s i (λ p. IsPad-Lacks b'#' p refl) (omega arith)
      (Lacks-of b'#' (λ x. (x ≢ b'=') × (x ≢ b'#') × (x ≢ 10)) s.key (λ x h. h.1) i.key_plain)
      (Lacks-of b'#' (λ x. (x ≢ b'#') × (x ≢ 10)) s.value (λ x h. h.0) i.value_plain)

strip_start_key : (k r : Bytes) → StartsKey k → Starts k → strip_start (k ++ r) ≡ k ++ r
unfolding strip_start
strip_start_key [] r h st = absurd h
strip_start_key (x ∷ k) r h st = rw st refl

stripped_line_key :
    (c_section k r : Bytes)
    → StartsKey k
    → stripped_line c_section (k ++ r) ≡ setting c_section (split_at b'=' (k ++ r))
unfolding stripped_line
stripped_line_key c_section [] r h = absurd h
stripped_line_key c_section (x ∷ k) r h =
    let other : (x == b'[') ≡ false = (ground arith) in rw other refl

strip_end_key : (k g r : Bytes) → strip_end (k ++ (g ++ b'=' ∷ r)) ≡ k ++ (g ++ b'=' ∷ strip_end r)
strip_end_key k g r =
    let right : strip_end (b'=' ∷ r) ≡ b'=' ∷ strip_end r = (unfold strip_end in ground arith) in
    let more : strip_end (g ++ b'=' ∷ r) ≡ g ++ b'=' ∷ strip_end r =
      strip_end-append g (b'=' ∷ r) (ap is_empty right) ∙ ap (λ r. g ++ r) right in
    strip_end-append k (g ++ b'=' ∷ r)
      (ap is_empty more ∙ is_empty-append g (b'=' ∷ strip_end r) refl)
    ∙ ap (λ r. k ++ r) more

setting_stripped :
    (s : Setting)
    → IsSetting s
    → ini_strip_whitespace (setting_text s) ≡ s.key ++ (s.gap ++ b'=' ∷ strip_end (right_side s))
unfolding ini_strip_whitespace
setting_stripped s i =
    let k = s.key ++ (s.gap ++ b'=' ∷ right_side s) in
    rw
      (
        strip_start-append s.indent k i.indent,
        strip_start_key s.key (s.gap ++ b'=' ∷ right_side s) i.key_starts i.key_trimmed.0,
      )
      (strip_end_key s.key s.gap (right_side s))

-- A line with a setting is read as its key and value, in the section of the key or in the one before.
pub parse_setting :
    (c_section : Bytes) (s : Setting)
    → IsSetting s
    → parse_line c_section (setting_text s ++ comment_text s.comment)
      ≡ entry (keyed c_section s.key s.value (split_at b'.' s.key))
unfolding parse_line setting
parse_setting c_section s i =
    let left = s.key ++ s.gap in
    let plain =
      Lacks-of b'=' (λ x. (x ≢ b'=') × (x ≢ b'#') × (x ≢ 10)) s.key (λ x h. h.0) i.key_plain in
    let gap = IsPad-Lacks b'=' s.gap refl i.gap in
    let found : split_at b'=' (s.key ++ (s.gap ++ b'=' ∷ strip_end (right_side s)))
        ≡ some (left, strip_end (right_side s)) =
      ap (split_at b'=') (sym (append_assoc s.key s.gap (b'=' ∷ strip_end (right_side s))))
      ∙ split_at-append b'=' left (strip_end (right_side s))
          (All-append (λ x. x ≢ b'=') s.key s.gap plain gap) in
    rw
      (
        cut_comment (setting_text s) s.comment (setting-Lacks_hash s i),
        setting_stripped s i,
        stripped_line_key c_section s.key (s.gap ++ b'=' ∷ strip_end (right_side s)) i.key_starts,
        found,
        strip_padded [] s.key s.gap tt i.key_trimmed i.gap,
        strip_right s.gap_behind s.value s.trail i.gap_behind i.value_trimmed i.trail,
      )
      refl
