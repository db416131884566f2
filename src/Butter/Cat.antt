-- ===== src/Butter/Cat.antt =====
-- `string_cat` of src/butter.c on lists of lists.
use gusher.Base.{◌≡◌, refl, sym, ap, ◌∙◌, true, Bytes, List, [], ◌∷◌, ◌++◌, append_assoc, ok}
use gusher.Scheme.{
  Scm, null, boolean, exact, inexact, string, symbol, pair, timestamp, other, is_list,
}
use gusher.Butter.{join, cat_items, string_cat}

abbrev IsSome : List Bytes → Type 0
IsSome [] = ⊥
IsSome (s ∷ list) = Unit

join-cons :
    (glue s : Bytes) (list : List Bytes)
    → IsSome list
    → join glue (s ∷ list) ≡ s ++ (glue ++ join glue list)
join-cons glue s (t ∷ list) h = refl
join-cons glue s [] h = elim h [ ]

-- A text that was joined stands for its parts.
join-join :
    (glue : Bytes) (inner list : List Bytes)
    → IsSome inner
    → join glue (join glue inner ∷ list) ≡ join glue (inner ++ list)
join-join glue (s ∷ []) list h = refl
join-join glue (s ∷ t ∷ inner) [] h = ap (λ r. s ++ (glue ++ r)) (join-join glue (t ∷ inner) [] tt)
join-join glue (s ∷ t ∷ inner) (u ∷ list) h =
    append_assoc s (glue ++ join glue (t ∷ inner)) (glue ++ join glue (u ∷ list))
    ∙ ap (s ++◌) (append_assoc glue (join glue (t ∷ inner)) (glue ++ join glue (u ∷ list)))
    ∙ ap (λ r. s ++ (glue ++ r)) (join-join glue (t ∷ inner) (u ∷ list) tt)
join-join glue [] list h = elim h [ ]

IsSome-append : (pre : List Bytes) (s : Bytes) (list : List Bytes) → IsSome (pre ++ s ∷ list)
IsSome-append [] s list = tt
IsSome-append (p ∷ pre) s list = tt

IsSome-behind : (pre inner list : List Bytes) → IsSome inner → IsSome (pre ++ (inner ++ list))
IsSome-behind [] (s ∷ inner) list h = tt
IsSome-behind (p ∷ pre) inner list h = tt
IsSome-behind [] [] list h = elim h [ ]

join-inside :
    (glue : Bytes) (pre inner list : List Bytes)
    → IsSome inner
    → join glue (pre ++ join glue inner ∷ list) ≡ join glue (pre ++ (inner ++ list))
join-inside glue [] inner list h = join-join glue inner list h
join-inside glue (p ∷ pre) inner list h =
    join-cons glue p (pre ++ join glue inner ∷ list) (IsSome-append pre (join glue inner) list)
    ∙ ap (λ r. p ++ (glue ++ r)) (join-inside glue pre inner list h)
    ∙ sym (join-cons glue p (pre ++ (inner ++ list)) (IsSome-behind pre inner list h))

module _ {D : Type 0} (number_to_string : Scm D → Bytes) where
  -- The texts that stand in a list of lists, from the left to the right.
  abbrev pub leaves : Scm D → List Bytes
  leaves (pair (string s) node) = s ∷ leaves node
  leaves (pair (symbol s) node) = s ∷ leaves node
  leaves (pair (exact n) node) = number_to_string (exact n) ∷ leaves node
  leaves (pair (inexact x) node) = number_to_string (inexact x) ∷ leaves node
  leaves (pair (pair a d) node) = leaves (pair a d) ++ leaves node
  leaves (pair x node) = leaves node
  leaves x = []

  -- A list in which each list has a text in it.
  abbrev pub IsFull : Scm D → Type 0
  IsFull null = Unit
  IsFull (pair null node) = ⊥
  IsFull (pair (pair a d) node) =
      (is_list d ≡ true) × IsSome (leaves (pair a d)) × IsFull (pair a d) × IsFull node
  IsFull (pair x node) = IsFull node
  IsFull x = ⊥

  -- The loop collects texts that stand for the leaves, behind any others.
  Cats : Bytes → Scm D → Type 0
  Cats glue items =
      (list : List Bytes) × (cat_items number_to_string glue items ≡ ok list)
      × ((pre : List Bytes) → join glue (pre ++ list) ≡ join glue (pre ++ leaves items))

  -- One text in front.
  cats-cons :
      (glue s : Bytes) (list rest : List Bytes)
      → ((pre : List Bytes) → join glue (pre ++ list) ≡ join glue (pre ++ rest))
      → (pre : List Bytes) → join glue (pre ++ s ∷ list) ≡ join glue (pre ++ s ∷ rest)
  cats-cons glue s list rest same pre =
      ap (join glue) (sym (append_assoc pre (s ∷ []) list))
      ∙ same (pre ++ s ∷ [])
      ∙ ap (join glue) (append_assoc pre (s ∷ []) rest)

  cat_items-leaves : (glue : Bytes) (items : Scm D) → IsFull items → Cats glue items
  unfolding Cats cat_items
  cat_items-leaves glue null h = ([], refl, λ pre. refl)
  cat_items-leaves glue (pair (string s) node) h =
      let (list, e, same) = cat_items-leaves glue node h in
      (s ∷ list, rw e refl, cats-cons glue s list (leaves node) same)
  cat_items-leaves glue (pair (symbol s) node) h =
      let (list, e, same) = cat_items-leaves glue node h in
      (s ∷ list, rw e refl, cats-cons glue s list (leaves node) same)
  cat_items-leaves glue (pair (exact n) node) h =
      let (list, e, same) = cat_items-leaves glue node h in
      let s = number_to_string (exact n) in
      (s ∷ list, rw e refl, cats-cons glue s list (leaves node) same)
  cat_items-leaves glue (pair (inexact x) node) h =
      let (list, e, same) = cat_items-leaves glue node h in
      let s = number_to_string (inexact x) in
      (s ∷ list, rw e refl, cats-cons glue s list (leaves node) same)
  cat_items-leaves glue (pair (boolean b) node) h = cat_items-leaves glue node h
  cat_items-leaves glue (pair (timestamp t) node) h = cat_items-leaves glue node h
  cat_items-leaves glue (pair other node) h = cat_items-leaves glue node h
  cat_items-leaves glue (pair (pair a d) node) h =
      let (inner, e1, same1) = cat_items-leaves glue (pair a d) h.2 in
      let (list, e2, same2) = cat_items-leaves glue node h.3 in
      let s = join glue inner in
      let flat : s ≡ join glue (leaves (pair a d)) = same1 [] in
      (
        s ∷ list,
        rw (h.0, e1, e2) refl,
        λ pre.
            cats-cons glue s list (leaves node) same2 pre
            ∙ ap (λ t. join glue (pre ++ t ∷ leaves node)) flat
            ∙ join-inside glue pre (leaves (pair a d)) (leaves node) h.1,
      )
  cat_items-leaves glue (pair null node) h = elim h [ ]
  cat_items-leaves glue (boolean b) h = elim h [ ]
  cat_items-leaves glue (exact n) h = elim h [ ]
  cat_items-leaves glue (inexact x) h = elim h [ ]
  cat_items-leaves glue (string s) h = elim h [ ]
  cat_items-leaves glue (symbol s) h = elim h [ ]
  cat_items-leaves glue (timestamp t) h = elim h [ ]
  cat_items-leaves glue other h = elim h [ ]

  -- On a list of texts, symbols, numbers, other objects and lists of such, in which every list
  -- inside holds a text, string_cat gives what joining all the texts in it gives, from the left to
  -- the right, as if there were one list.
  pub string_cat-leaves :
      (glue : Bytes) (items : Scm D)
      → IsFull items
      → string_cat number_to_string glue items ≡ ok (join glue (leaves items))
  unfolding string_cat Cats
  string_cat-leaves glue items h =
      let (list, e, same) = cat_items-leaves glue items h in rw e (ap ok (same []))
