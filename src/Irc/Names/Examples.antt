-- ===== src/Irc/Names/Examples.antt =====
-- irc_send.c: the names of two users.
use bitl_steam.Common.{◌≡◌, ◌≤◌, ◌+◌, refl, List, [], ◌∷◌, Bytes, codes, length, All, arith}
use bitl_steam.Common.Outcome.{done}
use bitl_steam.Irc.Names.{
  Named, namelist_size, irc_send_names, names_from, append_name, prefix_of, is_full, last_line,
}
use bitl_steam.Irc.Names.Fits.{joined_lines, all_text, irc_send_names_lem}

abbrev two : List Named
two = record { flags = 1; nick = codes "root" } ∷ record { flags = 0; nick = codes "me" } ∷ []

run : irc_send_names two ≡ done (codes "@root me " ∷ [])
unfolding irc_send_names names_from append_name prefix_of is_full last_line
run = refl

two_short : All (λ u. length u.nick ≤ 381) two
two_short = (omega arith, (omega arith, tt))

irc_send_names_lem_example :
    (lines : List Bytes) × (irc_send_names two ≡ done lines)
    × (joined_lines lines ≡ all_text two)
    × All (λ s. length s + 1 ≤ namelist_size) lines
irc_send_names_lem_example = irc_send_names_lem two two_short
