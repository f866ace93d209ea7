-- ===== src/Root/Examples.antt =====
-- root_commands.c, lib/misc.c: commands on concrete lines.
use bitl_steam.Common.{
  ◌≡◌, ◌↔◌, refl, true, [], ◌∷◌, Bytes, codes, ltb, ◌&&◌, all, All, InString, arith,
}
use bitl_steam.Glib.Ascii.{ascii}
use bitl_steam.Root.{
  Handler, Command, execute, unknown, not_enough, find_command, run_found, root_commands,
  root_command, root_command_string, split_command_parts, parts, step, combine,
}
use bitl_steam.Root.Split.{command_text, split_command_parts-command_text}
use bitl_steam.Root.Unique.{IsOnly, root_command_iff}

-- Quotes, an escaped quote in them, an escaped space, and what stands behind a quote.
split_line :
    split_command_parts (codes "rename  \"my \\\"bee\\\" x\"lost Bee\\ maya")
    ≡ codes "rename" ∷ codes "my \"bee\" x" ∷ codes "Bee maya" ∷ []
unfolding split_command_parts parts combine step
split_line = refl

-- "acc" is enough for "account", "re" is not for one of three commands, and "add" needs two arguments.
answers :
    (root_command_string ascii (codes "ACC list")
      ≡ execute Handler.account (codes "ACC" ∷ codes "list" ∷ []))
    × (root_command_string ascii (codes "re") ≡ unknown)
    × (root_command_string ascii (codes "add jabber") ≡ not_enough 2)
unfolding root_command_string split_command_parts find_command root_command run_found parts combine
    step
answers = (refl, refl, refl)

root_command_iff_example :
    (root_command ascii (codes "ACC" ∷ codes "list" ∷ [])
      ≡ execute Handler.account (codes "ACC" ∷ codes "list" ∷ []))
    ↔ ((c : Command) × IsOnly ascii (codes "ACC") root_commands c
        × (ltb c.required_parameters 2 ≡ true)
        × (c.execute ≡ Handler.account))
root_command_iff_example = root_command_iff ascii (codes "ACC") (codes "list" ∷ []) Handler.account

in_string : (s : Bytes) → all (λ c. ltb 0 c && ltb c 256) s ≡ true → All InString s
in_string [] e = tt
in_string (c ∷ s) e = ((ground arith, ground arith), in_string s (ground arith))

-- One word has a space, a quote and a backslash, and one is empty.
split_command_parts-command_text_example :
    split_command_parts (command_text (codes "set") (codes "a \"\\" ∷ [] ∷ []))
    ≡ codes "set" ∷ codes "a \"\\" ∷ [] ∷ []
split_command_parts-command_text_example =
    split_command_parts-command_text (codes "set") (codes "a \"\\" ∷ [] ∷ []) (omega arith)
      (in_string (codes "set") refl) (in_string (codes "a \"\\") refl, (tt, tt))
