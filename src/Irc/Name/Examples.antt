-- ===== src/Irc/Name/Examples.antt =====
-- irc_channel.c: names of channels.
use bitl_steam.Common.{◌≡◌, refl, Bytes, codes, arith, All, InString}
use bitl_steam.Nick.{equal}
use bitl_steam.Irc.Name.{irc_channel_name_ok, irc_channel_name_cmp, case_map}

upper : irc_channel_name_cmp (codes "#A[") (codes "#a{") ≡ equal
unfolding irc_channel_name_cmp irc_channel_name_ok case_map
upper = refl

abbrev a_name : Bytes
a_name = codes "#A["

abbrev b_name : Bytes
b_name = codes "#a{"

a_name-InString : All InString a_name
a_name-InString =
    ((omega arith, omega arith), ((omega arith, omega arith), ((omega arith, omega arith), tt)))

b_name-InString : All InString b_name
b_name-InString =
    ((omega arith, omega arith), ((omega arith, omega arith), ((omega arith, omega arith), tt)))
