-- ===== src/Xml.antt =====
-- lib/xmltree.c: trees of XML elements.
pub mod Build
pub mod Edit
use bitl_steam.Common.{
  ℕ, zero, suc, ◌+◌, ◌-◌, ◌≡◌, Bool, true, false, not, ◌&&◌, ◌||◌, Option, none, some, List, [],
  ◌∷◌, ◌++◌, Bytes, codes, length, take, drop, contains, ltb, ◌==◌, strcmp_eq, if◌then◌else◌,
}
use bitl_steam.Common.Outcome.{Outcome, done, fault, ◌>>=◌}
use bitl_steam.Glib.{Glib}

-- The array of attributes, and whether the value in its last element, which has no key, was never
-- set: `g_new0` sets it to a null pointer, `g_renew` does not. `behind` says the same of the elements
-- that removals have left behind the last one.
pub record Attrs : Type 0 where
  pub list : List (Bytes × Bytes)
  pub unset : Bool
  pub behind : List Bool

-- `struct xt_node` with its name, attributes, text, the flags `XT_COMPLETE` and `XT_SEEN`, and its
-- children.
mutual
  pub data Node : Type 0 where
    node : Bytes → Attrs → Option Bytes → Bool → Bool → Nodes → Node

  pub data Nodes : Type 0 where
    nil : Nodes
    cons : Node → Nodes → Nodes

unfoldable pub append : Nodes → Nodes → Nodes
append nil m = m
append (cons c l) m = cons c (append l m)

abbrev pub name_of : Node → Bytes
name_of (node name attrs text complete seen children) = name

abbrev pub attrs_of : Node → Attrs
attrs_of (node name attrs text complete seen children) = attrs

abbrev pub children_of : Node → Nodes
children_of (node name attrs text complete seen children) = children

-- The attributes that `xt_dup` makes: an array of its own from `g_new0`.
unfoldable pub dup_attrs : Attrs → Attrs
dup_attrs a = record { list = a.list; unset = false; behind = [] }

unfoldable mutual
  unfolding dup_attrs

  pub xt_dup : Node → Node
  xt_dup (node name attrs text complete seen children) =
      node name (dup_attrs attrs) text complete seen (dup_all children)

  pub dup_all : Nodes → Nodes
  dup_all nil = nil
  dup_all (cons c l) = cons (xt_dup c) (dup_all l)

unfoldable pub print_attrs : (Bytes → Bytes) → List (Bytes × Bytes) → Bytes
print_attrs escape [] = []
print_attrs escape ((key, value) ∷ l) =
    32 ∷ escape key ++ codes "=\"" ++ escape value ++ b'"' ∷ print_attrs escape l

abbrev pub text_of : Option Bytes → Bytes
text_of none = []
text_of (some s) = s

abbrev pub is_bare : Option Bytes → Nodes → Bool
is_bare none nil = true
is_bare _ _ = false

-- `escape` is `g_markup_escape_text`, which is also what `g_markup_printf_escaped` does to its arguments.
unfoldable mutual
  pub xt_to_string : (Bytes → Bytes) → Node → Bytes
  xt_to_string escape (node name attrs text complete seen children) =
      let inner = to_string_all escape children in
      let head = b'<' ∷ name ++ print_attrs escape attrs.list in
      if is_bare text children
      then head ++ codes "/>"
      else head
        ++ b'>' ∷ (if ltb 0 (length (text_of text)) then escape (text_of text) else [])
        ++ inner
        ++ codes "</"
        ++ name
        ++ b'>' ∷ []

  pub to_string_all : (Bytes → Bytes) → Nodes → Bytes
  to_string_all escape nil = []
  to_string_all escape (cons c l) = xt_to_string escape c ++ to_string_all escape l

-- What GLib's parser calls: the start of an element, text in it, and its end.
pub data Sax : Type 0 where
  start_element : Bytes → List (Bytes × Bytes) → Sax
  text : Bytes → Sax
  end_element : Sax

-- An element that is not complete: its children are.
pub record Open : Type 0 where
  pub name : Bytes
  pub attrs : List (Bytes × Bytes)
  pub text : Option Bytes
  pub children : Nodes

-- The parser: the open elements from `cur` outwards, and the root once it is complete. Until then
-- the root is the outermost open element.
pub record Parser : Type 0 where
  pub cur : List Open
  pub root : Option Node

unfoldable pub xt_start_element : Bytes → List (Bytes × Bytes) → Parser → Parser
xt_start_element name attrs xt = record xt {
  cur = record { name = name; attrs = attrs; text = none; children = nil } ∷ xt.cur;
}

unfoldable pub add_text : Bytes → List Open → List Open
add_text s [] = []
add_text s (o ∷ l) = record o { text = some (text_of o.text ++ s) } ∷ l

unfoldable pub xt_text : Bytes → Parser → Parser
xt_text s xt = record xt { cur = add_text s xt.cur }

abbrev pub closed : Open → Node
closed o =
    node o.name (record { list = o.attrs; unset = false; behind = [] }) o.text true false o.children

abbrev pub first_root : Option Node → Node → Option Node
first_root none n = some n
first_root (some r) n = some r

-- A complete node goes behind the other children, or it is the root. A second root is lost.
unfoldable pub put : Node → List Open → Option Node → Parser
put n [] root = record { cur = []; root = first_root root n }
put n (o ∷ l) root = record {
  cur = record o { children = append o.children (cons n nil) } ∷ l;
  root = root;
}

unfoldable pub end_of : List Open → Option Node → Outcome Parser
end_of [] root = fault
end_of (o ∷ l) root = done (put (closed o) l root)

unfoldable pub xt_end_element : Parser → Outcome Parser
xt_end_element xt = end_of xt.cur xt.root

unfoldable pub sax : Sax → Parser → Outcome Parser
sax (start_element name attrs) xt = done (xt_start_element name attrs xt)
sax (text s) xt = done (xt_text s xt)
sax end_element xt = xt_end_element xt

unfoldable pub sax_all : List Sax → Parser → Outcome Parser
sax_all [] xt = done xt
sax_all (e ∷ l) xt = sax e xt >>= sax_all l
