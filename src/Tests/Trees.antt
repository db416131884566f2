-- ===== src/Tests/Trees.antt =====
-- XML trees of src/http.c.
use gusher.Base.{ℕ, ◌≡◌, refl, [], ◌∷◌, none, some, ok, fault, is_space}
use gusher.CString.{codes}
use gusher.Scheme.{null, string, symbol, pair}
use gusher.Xml.{
  XmlNodes, element, text_node, cdata_node, comment_node, no_nodes, nodes, walk_tree, walk_children,
  attribute_list, trim_cat,
}
use gusher.Xml.Trim.{walk_tree-OnlyText}

-- ` a<!-- -->b ` in an element.
abbrev children : XmlNodes
children =
    nodes (text_node (codes " a")) (nodes comment_node (nodes (cdata_node (codes "b ")) no_nodes))

walk_tree-OnlyText_example :
    walk_tree {D = ℕ} (element (some (codes "x")) ((codes "k", some (codes "v")) ∷ []) children)
    ≡ ok (
        pair (symbol (codes "x")) (
          pair
            (pair (pair (symbol (codes "k")) (string (codes "v"))) null)
            (pair (string (codes "ab")) null)))
unfolding is_space attribute_list
walk_tree-OnlyText_example =
    walk_tree-OnlyText (codes "x") ((codes "k", some (codes "v")) ∷ [])
      (pair (pair (symbol (codes "k")) (string (codes "v"))) null) children (codes " ") (codes " ")
      (codes "a") (codes "b") (b'a') (b'b') tt refl refl (refl, tt) (refl, tt) refl refl refl

-- The byte in front of an empty text is read.
empty_element : walk_tree {D = ℕ} (element (some (codes "x")) [] no_nodes) ≡ fault
unfolding walk_tree walk_children trim_cat
empty_element = refl

-- An attribute with an empty value has no text to read.
empty_attribute : attribute_list {D = ℕ} ((codes "k", none) ∷ []) null ≡ fault
unfolding attribute_list
empty_attribute = refl
