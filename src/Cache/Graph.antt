-- ===== src/Cache/Graph.antt =====
-- Which documents depend on which, and what a change may mark: src/cache.c.
use gusher.Base.{
  ℕ, ◌≡◌, ◌⊎◌, inl, inr, refl, sym, ap, ◌∙◌, true, List, some, get_elem?, length, Elem,
  some_injective,
}
use gusher.Cache.{Nodes, MakeNode}

-- `Reaches up j i`: `j` is `i` or depends on it, through the lists of ascendants `up`.
pub data Reaches (up : ℕ → List ℕ) (j : ℕ) : ℕ → Type 0 where
  itself : {i : ℕ} → i ≡ j → Reaches up j i
  above : {i : ℕ} (a : ℕ) → Elem a (up i) → Reaches up j a → Reaches up j i

module _ {V Cb : Type 0} where
  -- The nodes' ascendants are those of `up`.
  abbrev pub HasGraph : (ℕ → List ℕ) → Nodes V Cb → Type 0
  HasGraph up ns = (j : ℕ) (n : MakeNode V Cb) → get_elem? ns j ≡ some n → n.ascendants ≡ up j

  -- At `j`, the node is as it was, or was marked dirty and nothing else, for a reason `P`.
  abbrev pub MarkedAt : (ℕ → Type 0) → Nodes V Cb → Nodes V Cb → ℕ → Type 0
  MarkedAt P ns ms j =
      (get_elem? ms j ≡ get_elem? ns j)
      ⊎ ((n : MakeNode V Cb) × (get_elem? ns j ≡ some n)
          × (get_elem? ms j ≡ some (record n { dirty = true }))
          × P j)

  abbrev pub IsDirty : Nodes V Cb → ℕ → Type 0
  IsDirty ns j = (n : MakeNode V Cb) × (get_elem? ns j ≡ some n) × (n.dirty ≡ true)

  -- `ms` is `ns` with exactly the nodes of `P` marked dirty.
  pub record Marks (P : ℕ → Type 0) (ns ms : Nodes V Cb) : Type 0 where
    pub size : length ms ≡ length ns
    pub only : (j : ℕ) → MarkedAt P ns ms j
    pub all : (j : ℕ) → P j → IsDirty ms j

  module _ {P : ℕ → Type 0} {ns ms : Nodes V Cb} (m : Marks P ns ms) where
    -- What a node holds besides its flag is as before.
    pub Marks-field :
        {F : Type 0} (field : MakeNode V Cb → F) (value : ℕ → F)
        → ((x : MakeNode V Cb) → field (record x { dirty = true }) ≡ field x)
        → ((j : ℕ) (n : MakeNode V Cb) → get_elem? ns j ≡ some n → field n ≡ value j)
        → (j : ℕ) (n : MakeNode V Cb) → get_elem? ms j ≡ some n
        → field n ≡ value j
    Marks-field field value flagless g j n e = elim (m.only j) [
      | inl same ↦ g j n (sym same ∙ e)
      | inr (o, old, new, p) ↦
          let q : record o { dirty = true } ≡ n = some_injective (sym new ∙ e) in
          sym (ap field q) ∙ flagless o ∙ g j o old
    ]

    pub Marks-HasGraph : (up : ℕ → List ℕ) → HasGraph up ns → HasGraph up ms
    Marks-HasGraph up = Marks-field (λ x. x.ascendants) up (λ x. refl)

    -- A node that is dirty stays so.
    pub Marks-IsDirty : (j : ℕ) → IsDirty ns j → IsDirty ms j
    Marks-IsDirty j (n, e, d) = elim (m.only j) [
      | inl same ↦ (n, same ∙ e, d)
      | inr (o, old, new, p) ↦ (record o { dirty = true }, new, refl)
    ]

  pub Marks-none : {ns : Nodes V Cb} → Marks (λ j. ⊥) ns ns
  Marks-none = record { size = refl; only = λ j. inl refl; all = λ j p. elim p [ ] }
