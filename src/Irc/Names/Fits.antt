-- ===== src/Irc/Names/Fits.antt =====
-- irc_send.c: `irc_send_names` stays in its buffer.
use bitl_steam.Common.{
  ℕ, ◌+◌, ◌≤◌, ◌≡◌, refl, ap, ◌∙◌, true, false, List, [], ◌∷◌, ◌++◌, append_assoc, Bytes, codes,
  length, length-append, ltb, All, arith, Bool-cases, inl, inr,
}
use bitl_steam.Common.Outcome.{done}
use bitl_steam.Irc.Names.{
  Named, namelist_size, prefix_of, name_text, append_name, last_line, is_full, names_from,
  irc_send_names,
}

-- The names of all users, and what lines say together.
abbrev pub all_text : List Named → Bytes
all_text [] = []
all_text (u ∷ l) = name_text u ++ all_text l

abbrev pub joined_lines : List Bytes → Bytes
joined_lines [] = []
joined_lines (s ∷ l) = s ++ joined_lines l

length-prefix_of : (flags : ℕ) → length (prefix_of flags) ≤ 1
unfolding prefix_of
length-prefix_of flags = ground arith

length-name_text : (u : Named) → length (name_text u) ≤ length u.nick + 2
length-name_text u = omega (
  arith,
  length-append (prefix_of u.flags ++ u.nick) (codes " "),
  length-append (prefix_of u.flags) u.nick,
  length-prefix_of u.flags,
)

length-added :
    (namelist : Bytes) (u : Named)
    → length (namelist ++ name_text u) ≤ length namelist + length u.nick + 2
length-added namelist u = omega (arith, length-append namelist (name_text u), length-name_text u)

append_name-done :
    (namelist : Bytes) (u : Named)
    → length namelist + length u.nick ≤ 381
    → append_name namelist u ≡ done (namelist ++ name_text u)
unfolding append_name
append_name-done namelist u h =
    let small = length-added namelist u in
    let fits : ltb (length (namelist ++ name_text u)) 385 ≡ true = ground arith in rw fits refl

-- What is sent from here on: lines that fit, and all that they say.
pub record Sends (l : List Named) (namelist : Bytes) : Type 0 where
  pub lines : List Bytes
  pub run : names_from l namelist ≡ done lines
  pub text : joined_lines lines ≡ namelist ++ all_text l
  pub fits : All (λ s. length s + 1 ≤ namelist_size) lines

last-Sends : (namelist : Bytes) → length namelist ≤ 384 → Sends [] namelist
unfolding names_from last_line
last-Sends [] k = record { lines = []; run = refl; text = refl; fits = tt }
last-Sends (c ∷ s) k = record {
  lines = (c ∷ s) ∷ [];
  run = refl;
  text = refl;
  fits = (omega arith, tt);
}

full-Sends :
    (u : Named) (l : List Named) (namelist : Bytes)
    → length u.nick ≤ 381
    → length namelist ≤ 384
    → is_full namelist u ≡ true
    → Sends l (name_text u)
    → Sends (u ∷ l) namelist
unfolding names_from
full-Sends u l namelist hu k e r = record {
  lines = namelist ∷ r.lines;
  run = rw (e, append_name-done [] u (omega arith), r.run) refl;
  text = ap (λ t. namelist ++ t) r.text;
  fits = (omega arith, r.fits);
}

same-Sends :
    (u : Named) (l : List Named) (namelist : Bytes)
    → length namelist + length u.nick ≤ 381
    → is_full namelist u ≡ false
    → Sends l (namelist ++ name_text u)
    → Sends (u ∷ l) namelist
unfolding names_from
same-Sends u l namelist hu e r = record {
  lines = r.lines;
  run = rw (e, append_name-done namelist u hu, r.run) refl;
  text = r.text ∙ append_assoc namelist (name_text u) (all_text l);
  fits = r.fits;
}

names_from-Sends :
    (l : List Named) (namelist : Bytes)
    → All (λ u. length u.nick ≤ 381) l
    → length namelist ≤ 384
    → Sends l namelist
names_from-Sends [] namelist h k = last-Sends namelist k
names_from-Sends (u ∷ l) namelist (hu, h) k = elim (Bool-cases (is_full namelist u)) [
  | inl e ↦
      full-Sends u l namelist hu k e
        (names_from-Sends l (name_text u) h (omega (arith, length-name_text u)))
  | inr e ↦
      (let room : length namelist + length u.nick ≤ 381 = unfold is_full in ground arith in
        same-Sends u l namelist room e
          (names_from-Sends l (namelist ++ name_text u) h (omega (arith, length-added namelist u))))
]

-- As long as no nick has more than 381 characters, `irc_send_names` stays in its buffer of 385
-- characters, and the lines that it sends are together all the users' names in their order, each
-- with its flag in front and a space behind.
pub irc_send_names_lem :
    (l : List Named)
    → All (λ u. length u.nick ≤ 381) l
    → (lines : List Bytes) × (irc_send_names l ≡ done lines)
      × (joined_lines lines ≡ all_text l)
      × All (λ s. length s + 1 ≤ namelist_size) lines
unfolding irc_send_names
irc_send_names_lem l h =
    let r = names_from-Sends l [] h (omega arith) in (r.lines, r.run, r.text, r.fits)
