-- ===== src/Irc/Line/Sizes.antt =====
-- irc.c: the arrays that `irc_parse_line` and `irc_build_line` allocate.
use bitl_steam.Common.{ℕ, ◌+◌, ◌≡◌, refl, some, List, [], ◌∷◌, Bytes, arith, length, length-append}
use bitl_steam.Irc.Line.{
  count_more, push, split_args, joined, crlf, build_line, args_size, build_size,
}

length-push : (c : ℕ) (more : List Bytes) → length (push c more) ≡ length more
unfolding push
length-push c [] = refl
length-push c (a ∷ more) = refl

-- The first loop of `irc_parse_line` counts exactly the elements that the second one fills.
pub length-split_args : (s : Bytes) → length (split_args s) ≡ count_more s + 1
unfolding split_args count_more
length-split_args [] = refl
length-split_args (c ∷ []) = ground arith
length-split_args (c ∷ d ∷ s) =
    ground (arith, length-split_args (d ∷ s), length-push c (split_args (d ∷ s)))

length-joined :
    (a : Bytes) (more : List Bytes) → length (joined (a ∷ more)) + 1 ≡ args_size (a ∷ more)
unfolding joined args_size
length-joined a [] = ground arith
length-joined a (b ∷ more) =
    ground (arith, length-joined b more, length-append a (b' ' ∷ joined (b ∷ more)))

-- The built line and its closing zero fill the buffer of `irc_build_line` exactly.
pub length-build_line :
    (cmd : List Bytes) {line : Bytes}
    → build_line cmd ≡ some line
    → length line + 1 ≡ build_size cmd
unfolding build_line build_size
length-build_line [] h = cc
length-build_line (a ∷ more) h =
    ground (arith, length-joined a more, length-append (joined (a ∷ more)) crlf)
