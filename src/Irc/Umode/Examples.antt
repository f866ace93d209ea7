-- ===== src/Irc/Umode/Examples.antt =====
-- irc.c: `irc_umode_set` on concrete modes.
use bitl_steam.Common.{
  ◌≡◌, ◌↔◌, ◌≤◌, ◌+◌, ◌<◌, All, refl, true, false, codes, contains, length, arith,
}
use bitl_steam.Common.Outcome.{done}
use bitl_steam.Irc.Umode.{Answer, irc_umode_set, umode_string, mode_array}
use bitl_steam.Irc.Umode.Safety.{IsUmode, irc_umode_set_safe}
use bitl_steam.Irc.Umode.Replay.{replay, irc_umode_set-replay}
use bitl_steam.Irc.Umode.Bounds.{irc_umode_set_fits}

-- A client with "Rs" asks for "+io-Rs".
abbrev answer : Answer
answer = record { umode = codes "Ri"; changes = codes "+i-s"; badflag = true }

run : irc_umode_set false (codes "Rs") (codes "+io-Rs") ≡ done answer
unfolding irc_umode_set
run = refl

modes-IsUmode : IsUmode (codes "Rs")
modes-IsUmode = ((omega arith, omega arith, refl), ((omega arith, omega arith, refl), tt))

asked : All (λ t. t < 128) (codes "+io-Rs")
asked = (omega arith, (omega arith, (omega arith, (omega arith, (omega arith, (omega arith, tt))))))

irc_umode_set_safe_example :
    (a : Answer) × (irc_umode_set false (codes "Rs") (codes "+io-Rs") ≡ done a)
    × IsUmode a.umode
    × ((contains a.umode b'R' ≡ true) ↔ (contains (codes "Rs") b'R' ≡ true))
    × (contains a.umode b'o' ≡ true → contains (codes "Rs") b'o' ≡ true)
irc_umode_set_safe_example = irc_umode_set_safe (codes "Rs") (codes "+io-Rs") modes-IsUmode asked

irc_umode_set-replay_example :
    (a : Answer) × (irc_umode_set false (codes "Rs") (codes "+io-Rs") ≡ done a)
    × (umode_string (replay a.changes (record { sign = 2; modes = mode_array (codes "Rs") })).modes
        ≡ a.umode)
irc_umode_set-replay_example = irc_umode_set-replay false (codes "Rs") (codes "+io-Rs") asked

irc_umode_set_fits_example :
    (a : Answer) × (irc_umode_set false (codes "Rs") (codes "+i") ≡ done a)
    × (length a.changes + 1 ≤ 511)
irc_umode_set_fits_example =
    irc_umode_set_fits false (codes "Rs") (codes "+i") (omega arith, (omega arith, tt))
