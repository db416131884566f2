-- ===== src/Xml/Trim.antt =====
-- `trim_cat` of src/http.c on texts in pieces.
use mathlib.Core.List.{reverse-reverse}
use gusher.Base.{
  ℕ, ◌≡◌, refl, sym, ap, ◌∙◌, All-reverse, true, false, Bytes, List, [], ◌∷◌, ◌++◌, append_assoc,
  reverse, reverse-append, All, ok, ◌>>=◌, is_space, Option, some,
}
use gusher.Scheme.{Scm, null, string, symbol, pair}
use gusher.Xml.{
  XmlNodes, element, text_node, cdata_node, comment_node, other_node, no_nodes, nodes, walk_tree,
  walk_children, attribute_list, concat, trim_back, skip_space, trim_cat,
}

abbrev pub Spaces : Bytes → Type 0
Spaces s = All (λ c. is_space c ≡ true) s

trim_back-Spaces :
    (s : Bytes) (c : ℕ) (rest : Bytes)
    → Spaces s
    → is_space c ≡ false
    → trim_back (s ++ c ∷ rest) ≡ ok (c ∷ rest)
trim_back-Spaces [] c rest h e = rw e refl
trim_back-Spaces (x ∷ s) c rest h e = rw h.0 (trim_back-Spaces s c rest h.1 e)

skip_space-Spaces :
    (s : Bytes) (c : ℕ) (rest : Bytes)
    → Spaces s
    → is_space c ≡ false
    → skip_space (s ++ c ∷ rest) ≡ c ∷ rest
skip_space-Spaces [] c rest h e = rw e refl
skip_space-Spaces (x ∷ s) c rest h e = rw h.0 (skip_space-Spaces s c rest h.1 e)

reverse-cons : (c : ℕ) (s : Bytes) → reverse (c ∷ s) ≡ reverse s ++ c ∷ []
reverse-cons c s = reverse-append (c ∷ []) s

-- The text between spaces, which starts and ends with what is no space.
pub trim_cat-core :
    (pieces : List Bytes) (a b front rest : Bytes) (c d : ℕ)
    → concat pieces ≡ a ++ (c ∷ rest ++ b)
    → c ∷ rest ≡ front ++ d ∷ []
    → Spaces a
    → Spaces b
    → is_space c ≡ false
    → is_space d ≡ false
    → trim_cat pieces ≡ ok (c ∷ rest)
unfolding trim_cat
trim_cat-core pieces a b front rest c d e same ha hb hc hd =
    let back : Bytes = reverse front ++ reverse a in
    let mirrored : d ∷ back ≡ reverse (a ++ c ∷ rest) = sym (
      reverse-append a (c ∷ rest)
      ∙ ap (λ s. reverse s ++ reverse a) same
      ∙ ap (λ s. s ++ reverse a) (reverse-append front (d ∷ []))) in
    let all : reverse (concat pieces) ≡ reverse b ++ d ∷ back =
      ap reverse (e ∙ sym (append_assoc a (c ∷ rest) b))
      ∙ reverse-append (a ++ c ∷ rest) b
      ∙ ap (λ s. reverse b ++ s) (sym mirrored) in
    let kept : trim_back (reverse (concat pieces)) ≡ ok (d ∷ back) =
      ap trim_back all
      ∙ trim_back-Spaces (reverse b) d back (All-reverse (λ c. is_space c ≡ true) b hb) hd in
    let turned : reverse (d ∷ back) ≡ a ++ c ∷ rest =
      ap reverse mirrored ∙ reverse-reverse (a ++ c ∷ rest) in
    ap (λ m. m >>= λ s. ok (skip_space (reverse s))) kept
    ∙ ap (λ s. ok (skip_space s)) turned
    ∙ ap ok (skip_space-Spaces a c rest ha hc)

-- Children that are texts, CDATA sections or comments, and their texts.
abbrev pub OnlyText : XmlNodes → Type 0
OnlyText no_nodes = Unit
OnlyText (nodes (text_node s) next) = OnlyText next
OnlyText (nodes (cdata_node s) next) = OnlyText next
OnlyText (nodes comment_node next) = OnlyText next
OnlyText (nodes _ next) = ⊥

abbrev pub texts_of : XmlNodes → List Bytes
texts_of no_nodes = []
texts_of (nodes (text_node s) next) = s ∷ texts_of next
texts_of (nodes (cdata_node s) next) = s ∷ texts_of next
texts_of (nodes _ next) = texts_of next

walk_children-OnlyText :
    (D : Type 0) (children : XmlNodes)
    → OnlyText children
    → walk_children {D = D} children ≡ ok ([], texts_of children)
unfolding walk_children
walk_children-OnlyText D no_nodes h = refl
walk_children-OnlyText D (nodes (text_node s) next) h = rw (walk_children-OnlyText D next h) refl
walk_children-OnlyText D (nodes (cdata_node s) next) h = rw (walk_children-OnlyText D next h) refl
walk_children-OnlyText D (nodes comment_node next) h = walk_children-OnlyText D next h
walk_children-OnlyText D (nodes (element name properties children) next) h = elim h [ ]
walk_children-OnlyText D (nodes other_node next) h = elim h [ ]

-- On an element with only texts, CDATA sections and comments in it, whose texts together are
-- spaces, a text that starts and ends with what is no space, and spaces, and whose attributes have
-- texts, walk_tree gives the element's name, the attributes' list and that text without the
-- spaces, however it is cut into nodes.
pub walk_tree-OnlyText :
    {D : Type 0} (name : Bytes) (properties : List (Bytes × Option Bytes)) (attribs : Scm D)
    → (children : XmlNodes) (a b front rest : Bytes) (c d : ℕ) → OnlyText children
    → concat (texts_of children) ≡ a ++ (c ∷ rest ++ b)
    → c ∷ rest ≡ front ++ d ∷ []
    → Spaces a
    → Spaces b
    → is_space c ≡ false
    → is_space d ≡ false
    → attribute_list properties null ≡ ok attribs
    → walk_tree (element (some name) properties children)
      ≡ ok (pair (symbol name) (pair attribs (pair (string (c ∷ rest)) null)))
unfolding walk_tree
walk_tree-OnlyText {D = D} name properties attribs children a b front rest c d h e same ha hb hc hd
      at =
    rw
      (
        walk_tree,
        walk_children-OnlyText D children h,
        trim_cat-core (texts_of children) a b front rest c d e same ha hb hc hd,
        at,
      )
      refl
