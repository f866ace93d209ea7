-- ===== src/Xml/Edit.antt =====
-- lib/xmltree.c: looking into a tree, and changing it.
pub mod Attr
pub mod Clean
mod Examples
use bitl_steam.Common.{
  ℕ, zero, suc, ◌+◌, ◌-◌, ◌≡◌, Bool, true, false, not, ◌&&◌, ◌||◌, Option, none, some, is_some,
  List, [], ◌∷◌, ◌++◌, Bytes, codes, length, take, drop, contains, ltb, leb, ◌==◌, strcmp_eq,
  if◌then◌else◌,
}
use bitl_steam.Common.Outcome.{Outcome, done, fault, ◌>>=◌}
use bitl_steam.Glib.{Glib}
use bitl_steam.Xml.{Attrs, Node, Nodes, node, nil, cons, append, name_of, attrs_of, children_of}

-- `strchr(s, ':')`: what is behind the first colon, or in front of it.
unfoldable pub behind_colon : Bytes → Option Bytes
behind_colon [] = none
behind_colon (c ∷ s) = let rest = behind_colon s in if c == b':' then some s else rest

unfoldable pub before_colon : Bytes → Bytes
before_colon [] = []
before_colon (c ∷ s) = let rest = before_colon s in if c == b':' then [] else c ∷ rest

-- The characters of `nonprint`, and those from the space up, also above 127.
unfoldable pub is_allowed : ℕ → Bool
is_allowed c = leb 32 c || c == 9 || c == 10 || c == 13

unfoldable pub xt_strip_text : Bytes → Bytes
xt_strip_text [] = []
xt_strip_text (c ∷ s) = let rest = xt_strip_text s in if is_allowed c then c ∷ rest else rest

unfoldable pub stripped : Option Bytes → Option Bytes
stripped none = none
stripped (some s) = some (xt_strip_text s)

unfoldable pub xt_new_node : Bytes → Option Bytes → Nodes → Node
xt_new_node name text children =
    node name (record { list = []; unset = false; behind = [] }) (stripped text) false false
      children

unfoldable pub xt_add_child : Node → Nodes → Node
xt_add_child (node name attrs text complete seen children) child =
    node name attrs text complete seen (append children child)

unfoldable pub xt_insert_child : Node → Nodes → Node
xt_insert_child (node name attrs text complete seen children) child =
    node name attrs text complete seen (append child children)

unfoldable pub has_key : List (Bytes × Bytes) → Bytes → Bool
has_key [] key = false
has_key ((k, v) ∷ l) key = strcmp_eq k key || has_key l key

unfoldable pub set_value : List (Bytes × Bytes) → Bytes → Bytes → List (Bytes × Bytes)
set_value [] key value = []
set_value ((k, v) ∷ l) key value =
    let rest = set_value l key value in if strcmp_eq k key then (k, value) ∷ l else (k, v) ∷ rest

-- The array is made two longer than the attributes were: its new end is the element behind the old
-- one, if there was one, and else it is new.
abbrev pub next_unset : List Bool → Bool
next_unset [] = true
next_unset (b ∷ l) = b

-- A new last element: its key is set to null, its value is not touched.
unfoldable pub add_attr : Attrs → Bytes → Bytes → Attrs
add_attr a key value =
    if has_key a.list key
    then record a { list = set_value a.list key value }
    else record { list = a.list ++ (key, value) ∷ []; unset = next_unset a.behind; behind = [] }

unfoldable pub xt_add_attr : Node → Bytes → Bytes → Node
xt_add_attr (node name a text complete seen children) key value =
    node name (add_attr a key value) text complete seen children

-- The last attribute, and the ones in front of it.
unfoldable pub last_of : Bytes × Bytes → List (Bytes × Bytes) → Bytes × Bytes
last_of x [] = x
last_of x (y ∷ l) = last_of y l

unfoldable pub front_of : Bytes × Bytes → List (Bytes × Bytes) → List (Bytes × Bytes)
front_of x [] = []
front_of x (y ∷ l) = x ∷ front_of y l

-- The attribute is replaced by the last one.
unfoldable pub fill_gap : List (Bytes × Bytes) → List (Bytes × Bytes)
fill_gap [] = []
fill_gap (y ∷ l) = last_of y l ∷ front_of y l

unfoldable pub remove_key : List (Bytes × Bytes) → Bytes → List (Bytes × Bytes)
remove_key [] key = []
remove_key ((k, v) ∷ l) key =
    let rest = remove_key l key in if strcmp_eq k key then fill_gap l else (k, v) ∷ rest

-- What was the last attribute ends the array, with a null pointer for its value. The array keeps its
-- size.
unfoldable pub remove_attr : Attrs → Bytes → Bool × Attrs
remove_attr a key =
    if has_key a.list key
    then (true, record { list = remove_key a.list key; unset = false; behind = a.unset ∷ a.behind })
    else (false, a)

unfoldable pub xt_remove_attr : Node → Bytes → Bool × Node
xt_remove_attr (node name a text complete seen children) key =
    let r = remove_attr a key in (r.0, node name r.1 text complete seen children)

module _ (g : Glib) where
  unfoldable pub find_value : List (Bytes × Bytes) → Bytes → Option Bytes
  find_value [] key = none
  find_value ((k, v) ∷ l) key = if g.strcasecmp k key then some v else find_value l key

  -- The declaration of a prefix: `xmlns:` and the prefix.
  unfoldable pub find_exact : List (Bytes × Bytes) → Bytes → Option Bytes
  find_exact [] key = none
  find_exact ((k, v) ∷ l) key = if strcmp_eq k key then some v else find_exact l key

  -- The value in the last element.
  unfoldable pub value_or_end : Attrs → Option Bytes → Outcome (Option Bytes)
  value_or_end a none = if a.unset then fault else done none
  value_or_end a (some v) = done (some v)

  unfoldable pub or_prefix : Bytes → Attrs → Bytes → Option Bytes → Option Bytes
  or_prefix name a key none =
      if strcmp_eq key (codes "xmlns") && is_some (behind_colon name)
      then find_exact a.list (codes "xmlns:" ++ before_colon name)
      else none
  or_prefix name a key (some v) = some v

  unfoldable pub xt_find_attr : Node → Bytes → Outcome (Option Bytes)
  xt_find_attr (node name a text complete seen children) key =
      value_or_end a (or_prefix name a key (find_value a.list key))

  -- The name, or what is behind the prefix of its namespace.
  unfoldable pub matches_part : Option Bytes → (Bytes → Bool) → Bool
  matches_part none test = false
  matches_part (some s) test = test s

  unfoldable pub is_named : Bytes → (Bytes → Bool) → Bool
  is_named name test = test name || matches_part (behind_colon name) test

  -- The rest of the list, from the first element that has the name.
  unfoldable pub xt_find_node : Nodes → Bytes → Nodes
  xt_find_node nil name = nil
  xt_find_node (cons c l) name =
      let rest = xt_find_node l name in
      if is_named (name_of c) (λ s. g.strcasecmp s name) then cons c l else rest

  -- The pieces of a path that the loop looks at. A slash at the end is not followed by one.
  unfoldable pub pieces : Bytes → Bytes → List Bytes
  pieces piece [] = piece ∷ []
  pieces piece (c ∷ []) = if c == b'/' then piece ∷ [] else (piece ++ c ∷ []) ∷ []
  pieces piece (c ∷ d ∷ s) =
      let next = pieces [] (d ∷ s) in
      let more = pieces (piece ++ c ∷ []) (d ∷ s) in if c == b'/' then piece ∷ next else more

  unfoldable pub path_pieces : Bytes → List Bytes
  path_pieces [] = []
  path_pieces (c ∷ s) = pieces [] (c ∷ s)

  -- `g_strncasecmp(node->name, name, n)`, with the length of the piece for `n`.
  unfoldable pub find_child : Nodes → Bytes → Option Node
  find_child nil piece = none
  find_child (cons c l) piece =
      let rest = find_child l piece in
      if is_named (name_of c) (λ s. g.strncasecmp s piece (length piece)) then some c else rest

  -- A node with the nodes that it is in, from the inside out.
  abbrev pub Place : Type 0
  Place = List Node × Node

  unfoldable pub up : Place → Option Place
  up ([], n) = none
  up (p ∷ l, n) = some (l, p)

  unfoldable pub enter : Place → Option Node → Option Place
  enter at none = none
  enter at (some c) = some (at.1 ∷ at.0, c)

  -- `strncmp(name, "..", n) == 0`
  unfoldable pub is_up : Bytes → Bool
  is_up piece = strcmp_eq piece (take (length piece) (codes ".."))

  unfoldable pub follow : Place → Bytes → Option Place
  follow at piece = if is_up piece then up at else enter at (find_child (children_of at.1) piece)

  unfoldable pub follow_all : Option Place → List Bytes → Option Place
  follow_all none l = none
  follow_all (some at) [] = some at
  follow_all (some at) (p ∷ l) = follow_all (follow at p) l

  unfoldable pub xt_find_path : Place → Bytes → Option Place
  xt_find_path at name = follow_all (some at) (path_pieces name)

-- `depth`: none for a negative number, which goes down all the way.
abbrev pub deeper : Option ℕ → Option (Option ℕ)
deeper none = some none
deeper (some zero) = none
deeper (some (suc n)) = some (some n)

abbrev pub is_seen : Node → Bool
is_seen (node name attrs text complete seen children) = seen

-- Below a node: what was seen goes, and in the rest it is looked for further down.
unfoldable mutual
  pub clean : Option (Option ℕ) → Node → Node
  clean none n = n
  clean (some depth) (node name attrs text complete seen children) =
      node name attrs text complete seen (clean_all (deeper depth) children)

  pub clean_all : Option (Option ℕ) → Nodes → Nodes
  clean_all depth nil = nil
  clean_all depth (cons c l) =
      let kept = cons (clean depth c) (clean_all depth l) in
      let rest = clean_all depth l in if is_seen c then rest else kept

-- `xt_cleanup( xt, NULL, depth )` of a parser whose root is complete or not: a root that was seen goes as a whole.
unfoldable pub xt_cleanup : Option Node → Option ℕ → Option Node
xt_cleanup none depth = none
xt_cleanup (some root) depth = if is_seen root then none else some (clean (some depth) root)
