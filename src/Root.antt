-- ===== src/Root.antt =====
-- root_commands.c: the commands of the control channel, and lib/misc.c: how a line becomes one.
pub mod Split
pub mod Unique
mod Examples
use Prim.Native.String.{String}
use bitl_steam.Common.{
  ℕ, ◌-◌, Bool, true, false, not, ◌&&◌, ◌||◌, Option, none, some, List, [], ◌∷◌, Bytes, codes,
  length, ltb, ◌==◌, if◌then◌else◌,
}
use bitl_steam.Glib.{Glib}

-- The functions of the table.
pub data Handler : Type 0 where
  account add allow blist block channel chat drop group help identify info nick yesno qlist
        register :
      Handler
  remove rename save set transfer : Handler

pub record Command : Type 0 where
  pub command : Bytes
  pub required_parameters : ℕ
  pub execute : Handler

abbrev row : String → ℕ → Handler → Command
row name required execute = record {
  command = codes name;
  required_parameters = required;
  execute = execute;
}

-- The table without the empty rows at its end.
abbrev pub root_commands : List Command
root_commands =
    row "account" 1 account
    ∷ row "add" 2 add
    ∷ row "allow" 1 allow
    ∷ row "blist" 0 blist
    ∷ row "block" 1 block
    ∷ row "channel" 1 channel
    ∷ row "chat" 1 chat
    ∷ row "drop" 1 drop
    ∷ row "ft" 0 transfer
    ∷ row "group" 1 group
    ∷ row "help" 0 help
    ∷ row "identify" 0 identify
    ∷ row "info" 1 info
    ∷ row "nick" 1 nick
    ∷ row "no" 0 yesno
    ∷ row "qlist" 0 qlist
    ∷ row "register" 0 register
    ∷ row "remove" 1 remove
    ∷ row "rename" 2 rename
    ∷ row "save" 0 save
    ∷ row "set" 0 set
    ∷ row "transfer" 0 transfer
    ∷ row "yes" 0 yesno
    ∷ []

-- What a command comes to: nothing, a message of root, or a call.
pub data Answer : Type 0 where
  nothing unknown : Answer
  not_enough : ℕ → Answer
  execute : Handler → List Bytes → Answer

module _ (g : Glib) where
  abbrev pub is_start : Bytes → Command → Bool
  is_start name c = g.strncasecmp c.command name (length name)

  abbrev next_starts : Bytes → List Command → Bool
  next_starts name [] = false
  next_starts name (c ∷ l) = is_start name c

  -- The first row that starts with the text, unless the next row does so too.
  unfoldable pub find_command : List Command → Bytes → Option Command
  find_command [] name = none
  find_command (c ∷ l) name =
      let rest = find_command l name in
      if is_start name c then (if next_starts name l then none else some c) else rest

  unfoldable pub run_found : Option Command → List Bytes → Answer
  run_found none cmd = unknown
  run_found (some c) cmd =
      if ltb c.required_parameters (length cmd)
      then execute c.execute cmd
      else not_enough c.required_parameters

  unfoldable pub root_command : List Bytes → Answer
  root_command [] = nothing
  root_command (name ∷ args) = run_found (find_command root_commands name) (name ∷ args)

-- Where the loop of `split_command_parts` is: in an argument or behind the end of a quoted one, with
-- the quote that it is in, or 0; at a character behind a backslash; in front of an argument; or
-- in the last one, which is not looked at.
pub data Mode : Type 0 where
  text escaped : ℕ → Mode
  closed closed_escaped gap last : Mode

-- What happens to a character: it is kept, or left out, or begins an argument, or what is behind it
-- does.
pub data Act : Type 0 where
  keep start : Act
  leave begin : Act

abbrev pub is_quote : ℕ → Bool
is_quote c = c == b'"' || c == b'\''

abbrev pub has_more : Bytes → Bool
has_more [] = false
has_more (c ∷ s) = true

-- A backslash counts outside quotes if something follows, and inside if the quote follows.
abbrev pub is_escape : ℕ → ℕ → Bytes → Bool
is_escape q c [] = false
is_escape q c (d ∷ s) = c == b'\\' && (q == 0 || q == d)

-- The mode of an argument, where there is room for `room` more of them.
abbrev pub argument : ℕ → ℕ → Mode
argument room q = if room == 0 then last else text q

-- One round at a character, with what is behind it: what happens, and how it goes on.
unfoldable pub step : ℕ → Mode → ℕ → Bytes → Act × ℕ × Mode
step room last c s = (keep, room, last)
step room (escaped q) c s = (keep, room, text q)
step room closed_escaped c s = (leave, room, closed)
step room (text q) c s =
    if c == 32 && q == 0
    then (leave, room, gap)
    else if is_escape q c s
    then (leave, room, escaped q)
    else if c == q
    then (leave, room, closed)
    else (keep, room, text q)
step room closed c s =
    if c == 32
    then (leave, room, gap)
    else if is_escape 0 c s
    then (leave, room, closed_escaped)
    else (leave, room, closed)
step room gap c s =
    let first = argument (room - 1) 0 in
    if c == 32
    then (leave, room, gap)
    else if is_quote c
    then (if has_more s then (begin, room - 1, argument (room - 1) c) else (leave, room, gap))
    else if not (room - 1 == 0) && is_escape 0 c s
    then (begin, room - 1, escaped 0)
    else (start, room - 1, first)

-- The rest of the argument that was begun, and the ones behind it.
unfoldable pub combine : Act → ℕ → Bytes × List Bytes → Bytes × List Bytes
combine keep c r = (c ∷ r.0, r.1)
combine leave c r = r
combine start c r = ([], (c ∷ r.0) ∷ r.1)
combine begin c r = ([], r.0 ∷ r.1)

unfoldable pub parts : ℕ → Mode → Bytes → Bytes × List Bytes
parts room m [] = ([], [])
parts room m (c ∷ s) = let now = step room m c s in combine now.0 c (parts now.1 now.2 s)

-- `IRC_MAX_ARGS` arguments at most.
unfoldable pub split_command_parts : Bytes → List Bytes
split_command_parts command = let r = parts 15 (text 0) command in r.0 ∷ r.1

unfoldable pub root_command_string : Glib → Bytes → Answer
root_command_string g command = root_command g (split_command_parts command)
