-- ===== src/Ini/Lines.antt =====
-- lib/ini.c: single lines, with white space and comments around what counts.
use bitl_steam.Common.{
  ℕ, ◌≡◌, ◌≢◌, refl, ap, sym, ◌∙◌, true, false, false≢true, Option, none, some, [], ◌∷◌, ◌++◌,
  append-nil, Bytes, is_space, All,
}
use bitl_steam.Common.Split.{Lacks, split_at-append, split_at-none}
use bitl_steam.Ini.{cut_of, cut_at, strip_start, is_empty, strip_end, ini_strip_whitespace}

-- White space within a line.
abbrev pub IsPad : Bytes → Type 0
IsPad = All (λ x. (is_space x ≡ true) × (x ≢ 10))

abbrev pub Starts : Bytes → Type 0
Starts [] = Unit
Starts (x ∷ s) = is_space x ≡ false

-- No white space at either end.
abbrev pub IsTrimmed : Bytes → Type 0
IsTrimmed s = Starts s × (strip_end s ≡ s)

pub IsPad-Lacks : (c : ℕ) (p : Bytes) → is_space c ≡ false → IsPad p → Lacks c p
IsPad-Lacks c [] h a = tt
IsPad-Lacks c (x ∷ p) h ((sp, ne), a) =
    (λ e. false≢true (sym h ∙ ap is_space (sym e) ∙ sp), IsPad-Lacks c p h a)

pub strip_start-append : (p s : Bytes) → IsPad p → strip_start (p ++ s) ≡ strip_start s
unfolding strip_start
strip_start-append [] s a = refl
strip_start-append (x ∷ p) s ((sp, ne), a) = rw sp (strip_start-append p s a)

pub strip_end-pad : (p : Bytes) → IsPad p → strip_end p ≡ []
unfolding strip_end
strip_end-pad [] a = refl
strip_end-pad (x ∷ p) ((sp, ne), a) = rw (strip_end-pad p a, sp) refl

pub strip_end-append_pad : (s p : Bytes) → IsPad p → strip_end (s ++ p) ≡ strip_end s
unfolding strip_end
strip_end-append_pad [] p a = strip_end-pad p a
strip_end-append_pad (x ∷ s) p a = rw (strip_end-append_pad s p a) refl

pub is_empty-append : (s r : Bytes) → is_empty r ≡ false → is_empty (s ++ r) ≡ false
is_empty-append [] r h = h
is_empty-append (x ∷ s) r h = refl

pub strip_end-append :
    (s r : Bytes) → is_empty (strip_end r) ≡ false → strip_end (s ++ r) ≡ s ++ strip_end r
unfolding strip_end
strip_end-append [] r h = refl
strip_end-append (x ∷ s) r h =
    let some_left : is_empty (s ++ strip_end r) ≡ false = is_empty-append s (strip_end r) h in
    rw (strip_end-append s r h, some_left) refl

pub strip_start-Starts :
    (s p : Bytes) → Starts s → IsPad p → strip_end (strip_start (s ++ p)) ≡ strip_end (s ++ p)
unfolding strip_start
strip_start-Starts [] [] h a = refl
strip_start-Starts [] (x ∷ p) h ((sp, ne), a) =
    rw (sp, strip_end-pad (x ∷ p) ((sp, ne), a)) (strip_start-Starts [] p h a ∙ strip_end-pad p a)
strip_start-Starts (x ∷ s) p h a = rw h refl

-- White space around a text is taken off.
pub strip_padded :
    (p s q : Bytes) → IsPad p → IsTrimmed s → IsPad q → ini_strip_whitespace (p ++ (s ++ q)) ≡ s
unfolding ini_strip_whitespace
strip_padded p s q before (start, end) behind =
    rw (strip_start-append p (s ++ q) before)
      (strip_start-Starts s q start behind ∙ strip_end-append_pad s q behind ∙ end)

-- A comment, if there is one.
abbrev pub comment_text : Option Bytes → Bytes
comment_text none = []
comment_text (some t) = b'#' ∷ t

pub cut_comment :
    (s : Bytes) (comment : Option Bytes)
    → Lacks b'#' s
    → cut_at b'#' (s ++ comment_text comment) ≡ s
unfolding cut_at cut_of
cut_comment s none h = rw (append-nil s, split_at-none b'#' s h) refl
cut_comment s (some t) h = rw (split_at-append b'#' s t h) refl

pub Lacks-of : (c : ℕ) (P : ℕ → Type 0) (s : Bytes) → ((x : ℕ) → P x → x ≢ c) → All P s → Lacks c s
Lacks-of c P [] f a = tt
Lacks-of c P (x ∷ s) f (p, a) = (f x p, Lacks-of c P s f a)

pub pad_newline : (p : Bytes) → IsPad p → Lacks 10 p
pad_newline p = Lacks-of 10 (λ x. (is_space x ≡ true) × (x ≢ 10)) p (λ x h. h.1)
