-- ===== src/Xml/Build.antt =====
-- lib/xmltree.c: the tree that the parser builds.
use bitl_steam.Common.{
  ◌≡◌, refl, ap, ◌∙◌, true, false, Option, none, some, List, [], ◌∷◌, ◌++◌, append_assoc, Bytes,
}
use bitl_steam.Xml.{
  Node, Nodes, node, nil, cons, append, dup_attrs, xt_dup, dup_all, xt_to_string, to_string_all,
  Sax, start_element, text, end_element, Open, Parser, xt_start_element, add_text, xt_text, put,
  end_of, xt_end_element, sax, sax_all, text_of, is_bare,
}

abbrev pub text_events : Option Bytes → List Sax
text_events none = []
text_events (some s) = text s ∷ []

-- What a parser calls for an element: its start, its text, its children, its end.
unfoldable mutual
  pub events : Node → List Sax
  events (node name attrs t complete seen children) =
      start_element name attrs.list ∷ (text_events t ++ (events_all children ++ end_element ∷ []))

  pub events_all : Nodes → List Sax
  events_all nil = []
  events_all (cons c l) = events c ++ events_all l

-- The same tree, complete and not seen.
unfoldable mutual
  unfolding dup_attrs

  pub completed : Node → Node
  completed (node name attrs t complete seen children) =
      node name (dup_attrs attrs) t true false (completed_all children)

  pub completed_all : Nodes → Nodes
  completed_all nil = nil
  completed_all (cons c l) = cons (completed c) (completed_all l)

append_assoc_nodes : (l m n : Nodes) → append (append l m) n ≡ append l (append m n)
unfolding append
append_assoc_nodes nil m n = refl
append_assoc_nodes (cons c l) m n = ap (cons c) (append_assoc_nodes l m n)

append-nil_nodes : (l : Nodes) → append l nil ≡ l
unfolding append
append-nil_nodes nil = refl
append-nil_nodes (cons c l) = ap (cons c) (append-nil_nodes l)

mutual
  unfolding sax_all sax events completed xt_start_element xt_end_element end_of dup_attrs xt_text
      add_text append put

  build :
      (n : Node) (rest : List Sax) (cur : List Open) (root : Option Node)
      → sax_all (events n ++ rest) (record { cur = cur; root = root })
        ≡ sax_all rest (put (completed n) cur root)
  build (node name attrs none complete seen children) rest cur root =
      rw (append_assoc (events_all children) (end_element ∷ []) rest) (
        build_all children (end_element ∷ rest)
          (record { name = name; attrs = attrs.list; text = none; children = nil }) cur root)
  build (node name attrs (some t) complete seen children) rest cur root =
      rw (append_assoc (events_all children) (end_element ∷ []) rest) (
        build_all children (end_element ∷ rest)
          (record { name = name; attrs = attrs.list; text = some t; children = nil }) cur root)

  build_all :
      (l : Nodes) (rest : List Sax) (o : Open) (cur : List Open) (root : Option Node)
      → sax_all (events_all l ++ rest) (record { cur = o ∷ cur; root = root })
        ≡ sax_all rest (record {
          cur = record o { children = append o.children (completed_all l) } ∷ cur;
          root = root;
        })
  build_all nil rest o cur root = rw (append-nil_nodes o.children) refl
  build_all (cons c l) rest o cur root =
      let after : Open = record o { children = append o.children (cons (completed c) nil) } in
      rw
        (append_assoc (events c) (events_all l) rest, build c (events_all l ++ rest) (o ∷ cur) root)
        (build_all l rest after cur root
          ∙ ap (λ m. sax_all rest (record { cur = record o { children = m } ∷ cur; root = root }))
              (append_assoc_nodes o.children (cons (completed c) nil) (completed_all l)))

xt_text_twice : (s t : Bytes) (xt : Parser) → xt_text t (xt_text s xt) ≡ xt_text (s ++ t) xt
unfolding xt_text
xt_text_twice s t xt = ap (λ cur. record xt { cur = cur }) (add_twice s t xt.cur)
  where
    add_twice :
        (s t : Bytes) (cur : List Open) → add_text t (add_text s cur) ≡ add_text (s ++ t) cur
    add_twice s t [] = unfold add_text in refl
    add_twice s t (o ∷ l) =
        unfold add_text in
        ap (λ r. record o { text = some r } ∷ l) (append_assoc (text_of o.text) s t)

-- From the calls that a parser makes for an element, the same element is built, complete and not
-- seen, as the last child of the element it stands in, or as the root; and text may come in
-- pieces.
pub sax_all-events :
    (n : Node) (rest : List Sax) (xt : Parser)
    → (sax_all (events n ++ rest) xt ≡ sax_all rest (put (completed n) xt.cur xt.root))
      × ((s t : Bytes) → sax_all (text s ∷ text t ∷ rest) xt ≡ sax_all (text (s ++ t) ∷ rest) xt)
unfolding sax_all sax
sax_all-events n rest xt =
    (build n rest xt.cur xt.root, λ s t. ap (sax_all rest) (xt_text_twice s t xt))

is_bare_dup : (t : Option Bytes) (l : Nodes) → is_bare t (dup_all l) ≡ is_bare t l
unfolding dup_all
is_bare_dup none nil = refl
is_bare_dup none (cons c l) = refl
is_bare_dup (some t) nil = refl
is_bare_dup (some t) (cons c l) = refl

mutual
  unfolding xt_dup xt_to_string dup_attrs

  print_dup :
      (escape : Bytes → Bytes) (n : Node) → xt_to_string escape (xt_dup n) ≡ xt_to_string escape n
  print_dup escape (node name attrs t complete seen children) =
      rw (is_bare_dup t children, print_dup_all escape children) refl

  print_dup_all :
      (escape : Bytes → Bytes) (l : Nodes)
      → to_string_all escape (dup_all l) ≡ to_string_all escape l
  print_dup_all escape nil = refl
  print_dup_all escape (cons c l) = rw (print_dup escape c, print_dup_all escape l) refl
