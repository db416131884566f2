-- ===== src/Cache/Invalidate.antt =====
-- `invalidate` of src/cache.c marks exactly the node and what depends on it.
use gusher.Base.{
  ℕ, zero, suc, ◌-◌, ◌<◌, ◌≤◌, ◌≡◌, ◌⊎◌, inl, inr, refl, sym, ap, ◌∙◌, true, List, [], ◌∷◌, ◌==◌,
  some, Run, ok, get_elem?, set, length, length-set, get_elem?-set, get_elem?-lt, get_elem?-some,
  arith, Elem, All, All-Elem, Bool-cases, ==_iff, some_injective, subst,
}
use gusher.Cache.Graph.{Reaches, itself, above, HasGraph, Marks, Marks-HasGraph, Marks-IsDirty}
use gusher.Cache.{Nodes, MakeNode, each, invalidate}

module _ {V Cb : Type 0} where
  pub Marks-trans :
      {P Q : ℕ → Type 0} {ns ms ks : Nodes V Cb}
      → Marks P ns ms
      → Marks Q ms ks
      → Marks (λ j. P j ⊎ Q j) ns ks
  Marks-trans {P} {Q} {ns} {ms} {ks} m k = record {
    size = k.size ∙ m.size;
    only = λ j. elim (k.only j) [
      | inl same ↦ (elim (m.only j) [
        | inl same' ↦ inl (same ∙ same')
        | inr (n, old, new, p) ↦ inr (n, old, same ∙ new, inl p)
      ])
      | inr (n, old, new, q) ↦ (elim (m.only j) [
        | inl same' ↦ inr (n, sym same' ∙ old, new, inr q)
        | inr (n', old', new', p) ↦ inr (
          n',
          old',
          new
              ∙ ap (λ (x : MakeNode V Cb). some (record x { dirty = true }))
                  (some_injective (sym old ∙ new')),
          inl p,
        )
      ])
    ];
    all = λ j r. elim r [ inl p ↦ Marks-IsDirty k j (m.all j p) | inr q ↦ k.all j q ];
  }

  pub Marks-iff :
      {P Q : ℕ → Type 0} {ns ms : Nodes V Cb}
      → ((j : ℕ) → P j → Q j)
      → ((j : ℕ) → Q j → P j)
      → Marks P ns ms
      → Marks Q ns ms
  Marks-iff f g m = record {
    size = m.size;
    only = λ j. elim (m.only j) [
      | inl same ↦ inl same
      | inr (n, old, new, p) ↦ inr (n, old, new, f j p)
    ];
    all = λ j q. m.all j (g j q);
  }

  Marks-set :
      (ns : Nodes V Cb) (i : ℕ) (n : MakeNode V Cb)
      → get_elem? ns i ≡ some n
      → Marks (λ j. i ≡ j) ns (set ns i (record n { dirty = true }))
  Marks-set ns i n e =
      let within = get_elem?-lt ns i e in
      record {
        size = length-set ns i _;
        only = λ j. elim (Bool-cases (i == j)) [
          | inl h ↦ inr (
            n,
            ap (get_elem? ns) (sym ((==_iff i j).0 h)) ∙ e,
            get_elem?-set ns i j _ within ∙ rw h,
            (==_iff i j).0 h,
          )
          | inr h ↦ inl (get_elem?-set ns i j _ within ∙ rw h)
        ];
        all = λ j h. (
          record n { dirty = true },
          get_elem?-set ns i j _ within ∙ rw ((==_iff i j).1 h),
          refl,
        );
      }

  -- A run that ends, having marked the nodes of `P`.
  pub record Marked (P : ℕ → Type 0) (ns : Nodes V Cb) (r : Run (Nodes V Cb)) : Type 0 where
    pub after : Nodes V Cb
    pub result : r ≡ ok after
    pub marks : Marks P ns after

-- Ascendants have greater addresses, below the end of the node list.
abbrev pub IsAcyclic : (ℕ → List ℕ) → ℕ → Type 0
IsAcyclic up size = (i : ℕ) → All (λ a. (i < a) × (a < size)) (up i)

-- `j` is, or depends on, one of `list`.
abbrev ReachesOne : (ℕ → List ℕ) → List ℕ → ℕ → Type 0
ReachesOne up list j = (a : ℕ) × Elem a list × Reaches up j a

Reaches-split : (up : ℕ → List ℕ) (i j : ℕ) → Reaches up j i → (i ≡ j) ⊎ ReachesOne up (up i) j
Reaches-split up i j (itself e) = inl e
Reaches-split up i j (above a m r) = inr (a, m, r)

Reaches-join : (up : ℕ → List ℕ) (i j : ℕ) → (i ≡ j) ⊎ ReachesOne up (up i) j → Reaches up j i
Reaches-join up i j (inl e) = itself e
Reaches-join up i j (inr (a, m, r)) = above a m r

module _ {V Cb : Type 0} where
  invalidate-suc :
      (fuel i : ℕ) (ns : Nodes V Cb) (n : MakeNode V Cb)
      → get_elem? ns i ≡ some n
      → invalidate (suc fuel) i ns
        ≡ each (invalidate fuel) n.ascendants (set ns i (record n { dirty = true }))
  unfolding invalidate
  invalidate-suc fuel i ns n e = rw e

module _ {V Cb : Type 0} (up : ℕ → List ℕ) (size : ℕ) (acyclic : IsAcyclic up size) where
  -- What a call must do on any node list with this graph.
  abbrev Visits : (ℕ → Nodes V Cb → Run (Nodes V Cb)) → ℕ → Type 0
  Visits visit a =
      (ns : Nodes V Cb)
      → HasGraph up ns
      → length ns ≡ size
      → Marked (λ j. Reaches up j a) ns (visit a ns)

  each-Marked :
      (visit : ℕ → Nodes V Cb → Run (Nodes V Cb)) (list : List ℕ)
      → ((a : ℕ) → Elem a list → Visits visit a)
      → (ns : Nodes V Cb) → HasGraph up ns
      → length ns ≡ size
      → Marked (ReachesOne up list) ns (each visit list ns)
  unfolding each
  each-Marked visit [] ok_at ns g l = record {
    after = ns;
    result = refl;
    marks = record { size = refl; only = λ j. inl refl; all = λ j (a, m, r). elim m [ ] };
  }
  each-Marked visit (x ∷ list) ok_at ns g l =
      let first = ok_at x (inl refl) ns g l in
      let rest =
        each-Marked visit list (λ a m. ok_at a (inr m)) first.after
          (Marks-HasGraph first.marks up g) (first.marks.size ∙ l) in
      record {
        after = rest.after;
        result = rw first.result rest.result;
        marks =
            Marks-iff (λ j p. elim p [ inl r ↦ (x, inl refl, r) | inr (a, m, r) ↦ (a, inr m, r) ])
              (λ j (a, m, r).
                let split : (a ≡ x) ⊎ Elem a list = m in
                elim split [ inl e ↦ inl (subst (Reaches up j) e r) | inr m' ↦ inr (a, m', r) ])
              (Marks-trans first.marks rest.marks);
      }

  -- One level: the node is marked, then what depends on its ascendants.
  invalidate-level :
      (fuel i : ℕ) (ns : Nodes V Cb) (n : MakeNode V Cb)
      → get_elem? ns i ≡ some n
      → HasGraph up ns
      → length ns ≡ size
      → ((a : ℕ) → Elem a (up i) → Visits (invalidate fuel) a)
      → Marked (λ j. Reaches up j i) ns (invalidate (suc fuel) i ns)
  invalidate-level fuel i ns n e g l below =
      let start = Marks-set ns i n e in
      let rest =
        each-Marked (invalidate fuel) (up i) below (set ns i (record n { dirty = true }))
          (Marks-HasGraph start up g) (start.size ∙ l) in
      record {
        after = rest.after;
        result =
            invalidate-suc fuel i ns n e
            ∙ ap (λ list. each (invalidate fuel) list (set ns i (record n { dirty = true })))
                (g i n e)
            ∙ rest.result;
        marks = Marks-iff (Reaches-join up i) (Reaches-split up i) (Marks-trans start rest.marks);
      }

  -- With fuel for the depth above `i`, `invalidate` ends and marks what depends on `i`.
  invalidate-Marked : (fuel i : ℕ) → i < size → size - i ≤ fuel → Visits (invalidate fuel) i
  invalidate-Marked zero i h f ns g l = absurd (omega arith)
  invalidate-Marked (suc fuel) i h f ns g l =
      let (n, e) = get_elem?-some ns i (omega arith) in
      invalidate-level fuel i ns n e g l λ a m.
        let bounds = All-Elem (λ b. (i < b) × (b < size)) (up i) a (acyclic i) m in
        invalidate-Marked fuel a bounds.1 (omega arith)

-- The nodes hang together as `make_doc` builds them: ascendants lie above, within the node list.
pub record IsGraph {V Cb : Type 0} (up : ℕ → List ℕ) (ns : Nodes V Cb) : Type 0 where
  pub graph : HasGraph up ns
  pub acyclic : IsAcyclic up (length ns)

-- On a well-formed cache, the fuel that invalidate is given is enough, and the call marks exactly
-- the node and every node that depends on it, directly or through others; it changes nothing else.
pub invalidate-Marks :
    {V Cb : Type 0} (up : ℕ → List ℕ) (i : ℕ) (ns : Nodes V Cb)
    → IsGraph up ns
    → i < length ns
    → Marked (λ j. Reaches up j i) ns (invalidate (length ns) i ns)
invalidate-Marks up i ns g h =
    invalidate-Marked up (length ns) g.acyclic (length ns) i h (omega arith) ns g.graph refl

pub Marks-IsGraph :
    {V Cb : Type 0} {P : ℕ → Type 0} {ns ms : Nodes V Cb} (up : ℕ → List ℕ)
    → Marks P ns ms
    → IsGraph up ns
    → IsGraph up ms
Marks-IsGraph up m g = record {
  graph = Marks-HasGraph m up g.graph;
  acyclic = subst (IsAcyclic up) (sym m.size) g.acyclic;
}
