-- ===== src/Nick/Get.antt =====
-- nick.c: `nick_get`, the nick under which a buddy is shown.
use bitl_steam.Common.{
  ℕ, suc, ◌≤◌, ◌≡◌, refl, ap, Bool, true, false, Option, none, some, [], ◌∷◌, Bytes, arith, All,
  length, length-take, take, ◌==◌, if◌then◌else◌, Bool-cases, inl, inr,
}
use bitl_steam.Common.Outcome.{Outcome, done, fault, ◌>>=◌}
use bitl_steam.Glib.{Glib, HashTable}
use bitl_steam.Nick.{
  max_nick_length, is_nick_char, clean_handle, nick_strip, convert, nick_lc, lower, is_free, dedupe,
  inf_protection,
}
use bitl_steam.Nick.Chars.{is_nick_char-lt}
use bitl_steam.Nick.Strip.{nick_strip-IsClean}
use bitl_steam.Nick.Dedupe.{dedupe_sound}
use bitl_steam.Nick.Gen.{Buddy, nick_gen}
use bitl_steam.Nick.Gen.Total.{FormatFits, Ends, nick_gen_total}

-- The text before the first such character.
unfoldable pub before : ℕ → Bytes → Bytes
before c [] = []
before c (d ∷ s) = if d == c then [] else d ∷ before c s

-- The nick that is left if none is stored and none can be made: the handle before its `@`, stripped,
-- in lower case if the setting `lcnicks` says so.
pub fallback : Bool → Bytes → Outcome Bytes
fallback lcnicks handle =
    let nick = nick_strip (before b'@' (take 23 handle)) in
    if lcnicks then (nick_lc nick >>= λ r. done r.1) else done nick

-- A nick that was made is cut to 24 characters.
pub made_or : Bool → Bytes → Option Bytes → Outcome Bytes
made_or lcnicks handle none = fallback lcnicks handle
made_or lcnicks handle (some nick) = done (take max_nick_length nick)

module _ (g : Glib) (to_ascii : Bytes → Option Bytes) {T : Type 0} (h : HashTable T Bytes) where
  pub stored_or : Bool → Buddy → Option Bytes → Option Bytes → Outcome Bytes
  stored_or lcnicks bu fmt (some nick) = done (take max_nick_length nick)
  stored_or lcnicks bu fmt none = nick_gen g to_ascii bu fmt >>= made_or lcnicks bu.handle

  -- `taken` and `made_up` are those of `nick_dedupe`, and `fmt` is the format of the account, or else
  -- the general one.
  unfoldable pub nick_get :
      (Bytes → Bool) → Bytes → Bool → T → Buddy → Option Bytes → Outcome (Bytes × Bool)
  nick_get taken made_up lcnicks nicks bu fmt =
      stored_or lcnicks bu fmt (h.lookup nicks (clean_handle bu.handle)) >>= λ nick.
      done (dedupe inf_protection taken made_up nick)

convert_ends :
    (tab : ℕ → ℕ) (s : Bytes)
    → All (λ c. is_nick_char c ≡ true) s
    → (r : Bool × Bytes) × (convert tab s ≡ done r) × (length r.1 ≡ length s)
unfolding convert
convert_ends tab [] h = ((true, []), refl, refl)
convert_ends tab (c ∷ s) (hc, h) =
    let (r, e, l) = convert_ends tab s h in
    elim (Bool-cases (tab c == 0)) [
      | inl z ↦ ((false, c ∷ s), ground (arith, is_nick_char-lt c hc), refl)
      | inr z ↦ ((r.0, tab c ∷ r.1), ground (arith, is_nick_char-lt c hc), ap suc l)
    ]

-- A nick before it is made unique: there is one, and it is not too long.
abbrev IsBase : Outcome Bytes → Type 0
IsBase fault = ⊥
IsBase (done nick) = length nick ≤ max_nick_length

fallback-IsBase : (lcnicks : Bool) (handle : Bytes) → IsBase (fallback lcnicks handle)
unfolding fallback nick_lc
fallback-IsBase false handle = (nick_strip-IsClean (before b'@' (take 23 handle))).short
fallback-IsBase true handle =
    let clean = nick_strip-IsClean (before b'@' (take 23 handle)) in
    let (r, e, l) = convert_ends lower (nick_strip (before b'@' (take 23 handle))) clean.chars in
    rw e (omega (arith, clean.short))

made-IsBase :
    (lcnicks : Bool) (handle : Bytes) (o : Outcome (Option Bytes))
    → Ends o
    → IsBase (o >>= made_or lcnicks handle)
unfolding made_or
made-IsBase lcnicks handle fault h = h
made-IsBase lcnicks handle (done none) h = fallback-IsBase lcnicks handle
made-IsBase lcnicks handle (done (some nick)) h = omega (arith, length-take max_nick_length nick)

IsBase-done :
    (o : Outcome Bytes) → IsBase o → (n : Bytes) × (o ≡ done n) × (length n ≤ max_nick_length)
IsBase-done fault b = absurd b
IsBase-done (done n) b = (n, refl, b)

module _ (g : Glib) (to_ascii : Bytes → Option Bytes) {T : Type 0} (h : HashTable T Bytes) where
  stored-IsBase :
      (lcnicks : Bool) (bu : Buddy) (fmt : Option Bytes) (o : Option Bytes)
      → FormatFits fmt
      → IsBase (stored_or g to_ascii h lcnicks bu fmt o)
  unfolding stored_or
  stored-IsBase lcnicks bu fmt none fit =
      made-IsBase lcnicks bu.handle (nick_gen g to_ascii bu fmt)
        (nick_gen_total g to_ascii bu fmt fit)
  stored-IsBase lcnicks bu fmt (some nick) fit = omega (arith, length-take max_nick_length nick)

  -- `nick_get` ends without undefined behaviour if the numbers in the format fit an `int`. Its nick
  -- has 24 characters at most, if a made-up one has, and is one that may be used and that nobody
  -- else has, unless the warning was given.
  pub nick_get_free :
      (taken : Bytes → Bool) (made_up : Bytes) (lcnicks : Bool) (nicks : T) (bu : Buddy)
      (fmt : Option Bytes)
      → length made_up ≤ max_nick_length
      → FormatFits fmt
      → (r : Bytes × Bool) × (nick_get g to_ascii h taken made_up lcnicks nicks bu fmt ≡ done r)
        × (r.1 ≡ false → is_free taken r.0 ≡ true)
        × (length r.0 ≤ max_nick_length)
  unfolding nick_get
  nick_get_free taken made_up lcnicks nicks bu fmt short fit =
      let found = h.lookup nicks (clean_handle bu.handle) in
      let (n, e, l) =
        IsBase-done (stored_or g to_ascii h lcnicks bu fmt found)
          (stored-IsBase lcnicks bu fmt found fit) in
      let (free, _, bound) = dedupe_sound inf_protection taken made_up n l short in
      (dedupe inf_protection taken made_up n, rw e refl, free, bound)
