-- ===== src/Xml/Edit/Examples.antt =====
-- lib/xmltree.c: small trees.
use bitl_steam.Common.{
  if◌then◌else◌, ◌≡◌, true, false, none, some, [], ◌∷◌, ◌++◌, Bytes, codes, All, strcmp_eq,
}
use bitl_steam.Common.Outcome.{done, fault}
use bitl_steam.Glib.Ascii.{ascii}
use bitl_steam.Xml.{Node, node, nil, cons, text, Parser, sax_all, put, xt_dup, attrs_of}
use bitl_steam.Xml.Build.{events, completed, sax_all-events}
use bitl_steam.Xml.Edit.{has_key, find_value, xt_add_attr, xt_remove_attr, xt_find_attr}
use bitl_steam.Xml.Edit.Attr.{KeyMatches, xt_find_attr-xt_add_attr}

abbrev body : Node
body =
    node (codes "body") (record { list = []; unset = false; behind = [] }) (some (codes "hi")) true
      true nil

abbrev message : Node
message =
    node (codes "message")
      (record { list = (codes "to", codes "a@b") ∷ []; unset = false; behind = [] }) none true false
      (cons body nil)

abbrev idle : Parser
idle = record { cur = []; root = none }

to_KeyMatches : All (KeyMatches ascii (codes "id")) (attrs_of message).list
to_KeyMatches = ((λ h. cc), tt)

sax_all-events_example :
    (sax_all (events message ++ []) idle ≡ sax_all [] (put (completed message) [] none))
    × ((s t : Bytes) → sax_all (text s ∷ text t ∷ []) idle ≡ sax_all (text (s ++ t) ∷ []) idle)
sax_all-events_example = sax_all-events message [] idle

xt_find_attr-xt_add_attr_example :
    (xt_find_attr ascii (xt_add_attr message (codes "id") (codes "7")) (codes "id")
      ≡ done (some (codes "7")))
    × ((other v : Bytes)
        → ascii.strcasecmp (codes "id") other ≡ false
        → find_value ascii (attrs_of message).list other ≡ some v
        → xt_find_attr ascii (xt_add_attr message (codes "id") (codes "7")) other ≡ done (some v))
    × ((other : Bytes)
        → ascii.strcasecmp (codes "id") other ≡ false
        → strcmp_eq other (codes "xmlns") ≡ false
        → find_value ascii (attrs_of message).list other ≡ none
        → has_key (attrs_of message).list (codes "id") ≡ false
        → ((attrs_of message).behind ≡ []
            → xt_find_attr ascii (xt_add_attr message (codes "id") (codes "7")) other ≡ fault)
          × (xt_find_attr ascii (xt_dup (xt_add_attr message (codes "id") (codes "7"))) other
              ≡ done none))
    × ((gone other : Bytes)
        → let m = (xt_remove_attr message gone).1 in
          has_key (attrs_of message).list gone ≡ true
          → ascii.strcasecmp (codes "id") other ≡ false
          → strcmp_eq other (codes "xmlns") ≡ false
          → find_value ascii (attrs_of m).list other ≡ none
          → has_key (attrs_of m).list (codes "id") ≡ false
          → xt_find_attr ascii (xt_add_attr m (codes "id") (codes "7")) other
            ≡ (if (attrs_of message).unset then fault else done none))
xt_find_attr-xt_add_attr_example =
    xt_find_attr-xt_add_attr ascii message (codes "id") (codes "7") to_KeyMatches
