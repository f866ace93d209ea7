-- ===== src/Irc/Line/Examples.antt =====
-- irc.c: runs of the line functions, and the theorems at concrete lines.
use bitl_steam.Common.{◌≡◌, refl, none, some, List, [], ◌∷◌, ◌++◌, Bytes, codes, inl}
use bitl_steam.Irc.Line.{parse_line, build_line, crlf}
use bitl_steam.Irc.Line.RoundTrip.{IsCommand, parse_line-build_line}

abbrev privmsg : List Bytes
privmsg = codes "PRIVMSG" ∷ codes "#bitlbee" ∷ codes "foo bar" ∷ []

parse_privmsg : parse_line (codes ":me PRIVMSG #bitlbee :foo bar") ≡ some privmsg
unfolding parse_line
parse_privmsg = refl

build_privmsg : build_line privmsg ≡ some (codes "PRIVMSG #bitlbee :foo bar" ++ crlf)
unfolding build_line
build_privmsg = refl

parse_nothing : parse_line (codes ":me  ") ≡ none
unfolding parse_line
parse_nothing = refl

privmsg-IsCommand : IsCommand privmsg
privmsg-IsCommand = ((refl, refl), (cc), ((refl, refl), inl refl))

parse_line-build_line_example :
    (line : Bytes) × (build_line privmsg ≡ some (line ++ crlf)) × (parse_line line ≡ some privmsg)
parse_line-build_line_example = parse_line-build_line privmsg privmsg-IsCommand
