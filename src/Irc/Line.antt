-- ===== src/Irc/Line.antt =====
-- irc.c: `irc_parse_line` and `irc_build_line`. The proofs are in the modules below.
pub mod RoundTrip
pub mod Sizes
mod Examples
use bitl_steam.Common.{
  ℕ, zero, suc, ◌+◌, Bool, true, false, Option, none, some, List, [], ◌∷◌, ◌++◌, Bytes, length,
  contains, ◌==◌, if◌then◌else◌,
}

-- `for (i = 0; line[i] && line[i] != ' '; i++)`
pub skip_word : Bytes → Bytes
skip_word [] = []
skip_word (c ∷ s) = if c == b' ' then c ∷ s else skip_word s

pub skip_spaces : Bytes → Bytes
skip_spaces [] = []
skip_spaces (c ∷ s) = if c == b' ' then skip_spaces s else c ∷ s

-- The line from the command on: the optional prefix and the spaces are skipped.
pub skip_prefix : Bytes → Bytes
unfolding skip_word skip_spaces
skip_prefix [] = []
skip_prefix (c ∷ s) = if c == b':' then skip_spaces (skip_word (c ∷ s)) else skip_spaces (c ∷ s)

-- The first loop: how many elements `cmd` needs besides the first and the closing null.
pub count_more : Bytes → ℕ
count_more [] = 0
count_more (c ∷ []) = if c == b' ' then 1 else 0
count_more (c ∷ d ∷ s) =
    let rest = count_more (d ∷ s) in if c == b' ' then (if d == b':' then 1 else rest + 1) else rest

-- A character in front of the current argument.
unfoldable pub push : ℕ → List Bytes → List Bytes
push c [] = []
push c (a ∷ more) = (c ∷ a) ∷ more

-- What stands behind a space: the last argument if there is a colon, else further arguments.
pub trailing : Bytes → List Bytes → List Bytes
trailing [] rest = rest
trailing (d ∷ s) rest = if d == b':' then s ∷ [] else rest

-- The second loop: the line is cut at every space.
pub split_args : Bytes → List Bytes
unfolding push trailing
split_args [] = [] ∷ []
split_args (c ∷ s) =
    let rest = split_args s in if c == b' ' then [] ∷ trailing s rest else push c rest

-- `none`: there is no command.
pub or_null : Bytes → Option (List Bytes)
unfolding split_args
or_null [] = none
or_null (c ∷ s) = some (split_args (c ∷ s))

unfoldable pub parse_line : Bytes → Option (List Bytes)
unfolding skip_prefix or_null
parse_line line = or_null (skip_prefix line)

-- The arguments in order, the last with a colon in front if it has a space.
pub joined : List Bytes → Bytes
joined [] = []
joined (a ∷ []) = if contains a b' ' then b':' ∷ a else a
joined (a ∷ b ∷ more) = a ++ b' ' ∷ joined (b ∷ more)

abbrev pub crlf : Bytes
crlf = 13 ∷ 10 ∷ []

unfoldable pub build_line : List Bytes → Option Bytes
unfolding joined
build_line [] = none
build_line (a ∷ more) = some (joined (a ∷ more) ++ crlf)

-- `len + 1`, the size of the buffer: each argument and one byte, a colon if the last has a space, and
-- the two that `len` starts from and `g_new0` adds.
pub args_size : List Bytes → ℕ
args_size [] = 0
args_size (a ∷ []) = length a + 1 + (if contains a b' ' then 1 else 0)
args_size (a ∷ b ∷ more) = length a + 1 + args_size (b ∷ more)

unfoldable pub build_size : List Bytes → ℕ
unfolding args_size
build_size cmd = args_size cmd + 2
