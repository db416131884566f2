-- ===== src/Xml.antt =====
-- What src/http.c makes of the body of an answer: `process_body`, `parse_xml`, `walk_tree` and
-- `trim_cat`. The parser of libxml and `json_decode` are parameters.
pub mod Trim
use gusher.Base.{
  ℕ, Bool, true, false, ◌||◌, Bytes, List, [], ◌∷◌, ◌++◌, reverse, length, Option, none, some, Run,
  ok, fault, thrown, ◌>>=◌, is_space, if◌then◌else◌,
}
use gusher.CString.{codes, strcmp_zero, strncmp_zero}
use gusher.Scheme.{Scm, null, boolean, string, symbol, pair}

-- A node of libxml's tree: an element has a name, attributes, of which an empty one has no text, and
-- children.
mutual
  pub data XmlNode : Type 0 where
    element : Option Bytes → List (Bytes × Option Bytes) → XmlNodes → XmlNode
    text_node : Bytes → XmlNode
    cdata_node : Bytes → XmlNode
    comment_node : XmlNode
    other_node : XmlNode

  pub data XmlNodes : Type 0 where
    no_nodes : XmlNodes
    nodes : XmlNode → XmlNodes → XmlNodes

-- `scm_string_join` with nothing between.
abbrev pub concat : List Bytes → Bytes
concat [] = []
concat (s ∷ texts) = s ++ concat texts

-- The loop that goes back over the spaces at the end, on the text from its end on. It stops only at
-- what is no space, so it reads in front of a text without one.
abbrev pub trim_back : Bytes → Run Bytes
trim_back [] = fault
trim_back (c ∷ s) = let further = trim_back s in if is_space c then further else ok (c ∷ s)

abbrev pub skip_space : Bytes → Bytes
skip_space [] = []
skip_space (c ∷ s) = let further = skip_space s in if is_space c then further else c ∷ s

-- `trim_cat`
unfoldable pub trim_cat : List Bytes → Run Bytes
trim_cat list = do rest ← trim_back (reverse (concat list)); ok (skip_space (reverse rest))

abbrev pub no_name : Bytes
no_name = codes "no-name"

abbrev pub name_of : Option Bytes → Bytes
name_of none = no_name
name_of (some name) = name

-- `matchn`
abbrev pub matchn : Bytes → Bytes → Bool
matchn val mime = strncmp_zero (length mime) val mime

module _ {D : Type 0} where
  -- The loop over the attributes.
  unfoldable pub attribute_list : List (Bytes × Option Bytes) → Scm D → Run (Scm D)
  attribute_list [] attribs = ok attribs
  attribute_list ((name, none) ∷ properties) attribs = fault
  attribute_list ((name, some content) ∷ properties) attribs =
      attribute_list properties (pair (pair (symbol name) (string content)) attribs)

  abbrev pub scm_list : List (Scm D) → Scm D
  scm_list [] = null
  scm_list (x ∷ xs) = pair x (scm_list xs)

  -- The elements where there are any, or else the text.
  abbrev pub node_body : List (Scm D) → List Bytes → Run (Scm D)
  node_body [] texts = do joined ← trim_cat texts; ok (string joined)
  node_body (x ∷ elements) texts = ok (scm_list (x ∷ elements))

  -- `walk_tree`, with the loop over the children: the elements and the texts, in order.
  unfoldable mutual
    pub walk_tree : XmlNode → Run (Scm D)
    walk_tree (element name properties children) = do
      (elements, texts) ← walk_children children
      body ← node_body elements texts
      attribs ← attribute_list properties null
      ok (pair (symbol (name_of name)) (pair attribs (pair body null)))
    walk_tree _ = fault

    pub walk_children : XmlNodes → Run (List (Scm D) × List Bytes)
    walk_children no_nodes = ok ([], [])
    walk_children (nodes (element name properties children) next) = do
      first ← walk_tree (element name properties children)
      (elements, texts) ← walk_children next
      ok (first ∷ elements, texts)
    walk_children (nodes (text_node s) next) = do
      (elements, texts) ← walk_children next
      ok (elements, s ∷ texts)
    walk_children (nodes (cdata_node s) next) = do
      (elements, texts) ← walk_children next
      ok (elements, s ∷ texts)
    walk_children (nodes comment_node next) = walk_children next
    walk_children (nodes other_node next) = walk_children next

  abbrev pub parsed : Option XmlNode → Run (Scm D)
  parsed none = ok (boolean false)
  parsed (some root) = walk_tree root

  module _ (json_decode : Bytes → Run (Scm D)) (xml_read : Bytes → Option XmlNode) where
    -- `parse_xml`
    unfoldable pub parse_xml : Bytes → Run (Scm D)
    parse_xml doc = parsed (xml_read doc)

    -- `process_body`, on the content type.
    unfoldable pub process_body : Option Bytes → Bytes → Run (Scm D)
    process_body none body = ok (string body)
    process_body (some stype) body =
        if matchn stype (codes "text/json")
          || (matchn stype (codes "application/json")
              || matchn stype (codes "application/javascript"))
        then json_decode body
        else if matchn stype (codes "application/xml")
            || (matchn stype (codes "application/atom+xml")
                || (matchn stype (codes "application/rss+xml") || matchn stype (codes "text/xml")))
        then parse_xml body
        else ok (string body)
