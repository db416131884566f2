-- ===== src/Cache/Making.antt =====
-- `make_doc` and `add_ascendant` of src/cache.c.
use gusher.Base.{
  ℕ, ◌≡◌, ◌⊎◌, inl, inr, refl, sym, Bytes, Bool, true, false, List, [], ◌∷◌, ◌++◌, ◌==◌,
  if◌then◌else◌, some, Run, ok, thrown, ◌>>=◌, or_fault, get_elem?, length, arith, Elem, Bool-cases,
  ==_iff, ==_self,
}
use gusher.Cache.{Cache, MakeNode, World, datum, file, chain, each, update, make_node}

-- What `make_doc` is given: a path, a datum, or documents with a recipe.
pub data Ingredients (V Cb : Type 0) : Type 0 where
  file_at : Bytes → Ingredients V Cb
  datum_of : V → Ingredients V Cb
  docs : List ℕ → Cb → Ingredients V Cb

-- The search of `add_ascendant`.
unfoldable pub holds : ℕ → List ℕ → Bool
holds self [] = false
holds self (x ∷ list) = if x == self then true else holds self list

module _ {V Cb : Type 0} where
  -- `add_ascendant`; the mutex is taken and given back, and a held one leaves the list alone.
  unfoldable pub add_ascendant : ℕ → ℕ → Cache V Cb → Run (Cache V Cb)
  unfolding holds
  add_ascendant self dependent c = do
    node ← or_fault (get_elem? c.nodes dependent)
    if node.mutex
        then thrown
        else if holds self node.ascendants
        then ok c
        else ok (update c dependent (record node { ascendants = self ∷ node.ascendants }))

  abbrev pub add_node : MakeNode V Cb → Cache V Cb → Cache V Cb
  add_node node c = record c { nodes = c.nodes ++ node ∷ [] }

  module _ (w : World V Cb) where
    -- `make_doc`: the new node's address is the next index.
    unfoldable pub make_doc : Ingredients V Cb → Cache V Cb → Run (ℕ × Cache V Cb)
    make_doc (file_at path) c =
        let self = length c.nodes in
        ok (
          self,
          record (add_node (record (make_node w file true) { filepath = path }) c) {
            file_nodes = record { node = self; mtime = 0 } ∷ c.file_nodes;
          },
        )
    make_doc (datum_of recipe) c =
        ok (length c.nodes, add_node (record (make_node w datum false) { payload = recipe }) c)
    make_doc (docs ingredients recipe) c = do
      let self = length c.nodes
      c ←
          each (add_ascendant self) ingredients
            (add_node (record (make_node w chain true) { callback = some recipe }) c)
      ok (self, c)

-- The graph with one more arrow, from `d` up to `self`, where it is not there yet.
abbrev pub link_one : ℕ → ℕ → (ℕ → List ℕ) → ℕ → List ℕ
link_one self d up j = if d == j then (if holds self (up j) then up j else self ∷ up j) else up j

abbrev pub link_all : ℕ → List ℕ → (ℕ → List ℕ) → ℕ → List ℕ
link_all self [] up = up
link_all self (d ∷ ds) up = link_all self ds (link_one self d up)

holds-Elem : (self : ℕ) (list : List ℕ) → holds self list ≡ true → Elem self list
unfolding holds
holds-Elem self [] h = cc
holds-Elem self (x ∷ list) h = ground (arith, holds-Elem self list)

module _ (self d : ℕ) (up : ℕ → List ℕ) where
  link_one-Elem : Elem self (link_one self d up d)
  link_one-Elem = elim (Bool-cases (holds self (up d))) [
    | inl h ↦ rw (==_self d, h) (holds-Elem self (up d) h)
    | inr h ↦ rw (==_self d, h) (inl refl)
  ]

  -- An arrow of the old graph stays; a new one is the one that was put in.
  link_one-keeps : (j a : ℕ) → Elem a (up j) → Elem a (link_one self d up j)
  link_one-keeps j a m = elim (Bool-cases (d == j)) [
    | inl e ↦ (elim (Bool-cases (holds self (up j))) [
      | inl h ↦ rw (e, h) m
      | inr h ↦ rw (e, h) (inr m)
    ])
    | inr e ↦ rw e m
  ]

  link_one-only : (j a : ℕ) → Elem a (link_one self d up j) → Elem a (up j) ⊎ ((a ≡ self) × (d ≡ j))
  link_one-only j a = elim (Bool-cases (d == j)) [
    | inl e ↦ (elim (Bool-cases (holds self (up j))) [
      | inl h ↦ rw (e, h) (λ m. inl m)
      | inr h ↦
          rw (e, h)
            (λ m.
              let split : (a ≡ self) ⊎ Elem a (up j) = m in
              elim split [ inl q ↦ inr (q, (==_iff d j).0 e) | inr k ↦ inl k ])
    ])
    | inr e ↦ rw e (λ m. inl m)
  ]

pub link_all-keeps :
    (self : ℕ) (ds : List ℕ) (up : ℕ → List ℕ) (j a : ℕ)
    → Elem a (up j)
    → Elem a (link_all self ds up j)
link_all-keeps self [] up j a m = m
link_all-keeps self (d ∷ ds) up j a m =
    link_all-keeps self ds (link_one self d up) j a (link_one-keeps self d up j a m)

pub link_all-Elem :
    (self : ℕ) (ds : List ℕ) (up : ℕ → List ℕ) (d : ℕ)
    → Elem d ds
    → Elem self (link_all self ds up d)
link_all-Elem self [] up d m = elim m [ ]
link_all-Elem self (x ∷ ds) up d (inl e) =
    rw e (link_all-keeps self ds (link_one self x up) x self (link_one-Elem self x up))
link_all-Elem self (x ∷ ds) up d (inr m) = link_all-Elem self ds (link_one self x up) d m

pub link_all-only :
    (self : ℕ) (ds : List ℕ) (up : ℕ → List ℕ) (j a : ℕ)
    → Elem a (link_all self ds up j)
    → Elem a (up j) ⊎ ((a ≡ self) × Elem j ds)
link_all-only self [] up j a m = inl m
link_all-only self (d ∷ ds) up j a m = elim (link_all-only self ds (link_one self d up) j a m) [
  | inl k ↦ (elim (link_one-only self d up j a k) [
    | inl old ↦ inl old
    | inr (q, e) ↦ inr (q, inl (sym e))
  ])
  | inr (q, k) ↦ inr (q, inr k)
]
