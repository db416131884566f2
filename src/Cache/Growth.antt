-- ===== src/Cache/Growth.antt =====
-- `make_doc` of src/cache.c keeps the cache well formed and records every dependence.
use gusher.Base.{
  ℕ, ◌+◌, ◌<◌, ◌≤◌, ◌≡◌, inl, inr, refl, sym, ap, ◌∙◌, true, false, List, [], ◌∷◌, ◌++◌, ◌==◌, some,
  ok, get_elem?, set, length, length-append, length-set, get_elem?-set, get_elem?-lt,
  get_elem?-some, get_elem?-append, get_elem?-append_left, arith, Elem, All, All-Elem, Bool-cases,
  ==_iff, ==_self, some_injective, subst,
}
use gusher.Cache.Graph.{Reaches, itself, above, HasGraph}
use gusher.Cache.Invalidate.{IsGraph, IsAcyclic}
use gusher.Cache.Making.{
  Ingredients, file_at, datum_of, docs, holds, add_ascendant, add_node, make_doc, link_one,
  link_all, link_all-Elem, link_all-only,
}
use gusher.Cache.{Cache, Nodes, MakeNode, FileNode, World, datum, file, chain, each, make_node}

link_one_held :
    (self d : ℕ) (up : ℕ → List ℕ)
    → holds self (up d) ≡ true
    → (j : ℕ) → up j ≡ link_one self d up j
link_one_held self d up h j = elim (Bool-cases (d == j)) [
  | inl e ↦
      let h' : holds self (up j) ≡ true =
        subst (λ k. holds self (up k) ≡ true) ((==_iff d j).0 e) h in
      rw (e, h')
  | inr e ↦ rw e
]

link_one_new :
    (self d : ℕ) (up : ℕ → List ℕ) → holds self (up d) ≡ false → self ∷ up d ≡ link_one self d up d
link_one_new self d up h = rw (==_self d, h)

module _ {V Cb : Type 0} where
  -- No mutex is held, as between requests.
  abbrev pub IsFree : Nodes V Cb → Type 0
  IsFree ns = (j : ℕ) (n : MakeNode V Cb) → get_elem? ns j ≡ some n → n.mutex ≡ false

  -- The cache is well formed, with the dependences `up`.
  pub record IsCache (up : ℕ → List ℕ) (c : Cache V Cb) : Type 0 where
    pub graph : IsGraph up c.nodes
    pub free : IsFree c.nodes
    pub files : All (λ f. f.node < length c.nodes) c.file_nodes

  -- The documents that a new document is made from.
  abbrev pub needs : Ingredients V Cb → List ℕ
  needs (file_at path) = []
  needs (datum_of recipe) = []
  needs (docs ingredients recipe) = ingredients

  -- One node changed: what is known of every node is known again, if it holds of the new one.
  get-set :
      (ns : Nodes V Cb) (i : ℕ) (m : MakeNode V Cb) (P : ℕ → MakeNode V Cb → Type 0)
      → i < length ns
      → P i m
      → ((j : ℕ) (n : MakeNode V Cb) → (i == j) ≡ false → get_elem? ns j ≡ some n → P j n)
      → (j : ℕ) (n : MakeNode V Cb) → get_elem? (set ns i m) j ≡ some n
      → P j n
  get-set ns i m P within here there j n e = elim (Bool-cases (i == j)) [
    | inl h ↦
        let q : m ≡ n = some_injective (sym (rw h at (get_elem?-set ns i j m within)) ∙ e) in
        subst (P j) q (subst (λ k. P k m) ((==_iff i j).0 h) here)
    | inr h ↦ there j n h (sym (rw h at (get_elem?-set ns i j m within)) ∙ e)
  ]

  -- One node behind the others.
  get-append :
      (ns : Nodes V Cb) (m : MakeNode V Cb) (P : ℕ → MakeNode V Cb → Type 0)
      → P (length ns) m
      → ((j : ℕ) (n : MakeNode V Cb) → get_elem? ns j ≡ some n → P j n)
      → (j : ℕ) (n : MakeNode V Cb) → get_elem? (ns ++ m ∷ []) j ≡ some n
      → P j n
  get-append ns m P here there j n e =
      let within = get_elem?-lt (ns ++ m ∷ []) j e in
      let size = length-append ns (m ∷ []) in
      elim (Bool-cases (length ns == j)) [
        | inl h ↦
            let at_end : length ns ≡ j = (==_iff (length ns) j).0 h in
            let q : m ≡ n =
              some_injective
                (sym (get_elem?-append ns m []) ∙ ap (get_elem? (ns ++ m ∷ [])) at_end ∙ e) in
            subst (P j) q (subst (λ k. P k m) at_end here)
        | inr h ↦ there j n (sym (get_elem?-append_left ns (m ∷ []) j (ground (arith, size))) ∙ e)
      ]

  add_ascendant_lem :
      (self d : ℕ) (up : ℕ → List ℕ) (c : Cache V Cb)
      → HasGraph up c.nodes
      → IsFree c.nodes
      → d < length c.nodes
      → (ns : Nodes V Cb) × (add_ascendant self d c ≡ ok (record c { nodes = ns }))
        × HasGraph (link_one self d up) ns
        × IsFree ns
        × (length ns ≡ length c.nodes)
  unfolding add_ascendant
  add_ascendant_lem self d up c g free l =
      let (n, e) = get_elem?-some c.nodes d l in
      let same = g d n e in
      elim (Bool-cases (holds self n.ascendants)) [
        | inl h ↦ (
          c.nodes,
          rw e (rw (free d n e) (rw h)),
          λ j o at_j.
              g j o at_j ∙ link_one_held self d up (subst (λ l. holds self l ≡ true) same h) j,
          free,
          refl,
        )
        | inr h ↦ (
          set c.nodes d (record n { ascendants = self ∷ n.ascendants }),
          rw e (rw (free d n e) (rw h)),
          get-set c.nodes d _ (λ j o. o.ascendants ≡ link_one self d up j) l
              (ap (◌∷◌ self) same
                ∙ link_one_new self d up (subst (λ l. holds self l ≡ false) same h))
              (λ j o ne at_j. g j o at_j ∙ rw ne),
          get-set c.nodes d _ (λ j o. o.mutex ≡ false) l (free d n e) (λ j o ne. free j o),
          length-set c.nodes d _,
        )
      ]

  add_ascendants_lem :
      (self : ℕ) (ds : List ℕ) (up : ℕ → List ℕ) (c : Cache V Cb)
      → HasGraph up c.nodes
      → IsFree c.nodes
      → All (λ d. d < length c.nodes) ds
      → (ns : Nodes V Cb) × (each (add_ascendant self) ds c ≡ ok (record c { nodes = ns }))
        × HasGraph (link_all self ds up) ns
        × IsFree ns
        × (length ns ≡ length c.nodes)
  unfolding each
  add_ascendants_lem self [] up c g free l = (c.nodes, refl, g, free, refl)
  add_ascendants_lem self (d ∷ ds) up c g free l =
      let (ms, run, g', free', size) = add_ascendant_lem self d up c g free l.0 in
      let (ns, run', g'', free'', size') =
        add_ascendants_lem self ds (link_one self d up) (record c { nodes = ms }) g' free'
          (subst (λ k. All (λ e. e < k) ds) (sym size) l.1) in
      (ns, rw run run', g'', free'', size' ∙ size)

-- All by membership.
All-of : (P : ℕ → Type 0) (xs : List ℕ) → ((a : ℕ) → Elem a xs → P a) → All P xs
All-of P [] f = tt
All-of P (x ∷ xs) f = (f x (inl refl), All-of P xs (λ a m. f a (inr m)))

-- With a new document above those that it needs, ascendants are still above.
link_all-IsAcyclic :
    (size : ℕ) (ds : List ℕ) (up : ℕ → List ℕ)
    → IsAcyclic up size
    → All (λ d. d < size) ds
    → IsAcyclic (link_all size ds up) (size + 1)
link_all-IsAcyclic size ds up acyclic l i =
    All-of (λ a. (i < a) × (a < size + 1)) (link_all size ds up i)
      λ a m. elim (link_all-only size ds up i a m) [
        | inl old ↦
            let h = All-Elem (λ b. (i < b) × (b < size)) (up i) a (acyclic i) old in
            (h.0, omega arith)
        | inr (q, k) ↦ let h = All-Elem (λ d. d < size) ds i l k in (omega arith, omega arith)
      ]

no_ascendants : (size : ℕ) (up : ℕ → List ℕ) → IsAcyclic up size → up size ≡ []
no_ascendants size up acyclic = empty (up size) (acyclic size)
  where
    empty : (xs : List ℕ) → All (λ a. (size < a) × (a < size)) xs → xs ≡ []
    empty [] h = refl
    empty (x ∷ xs) h = absurd (omega arith)

All-lt_mono :
    (fs : List FileNode) (a b : ℕ) → a ≤ b → All (λ f. f.node < a) fs → All (λ f. f.node < b) fs
All-lt_mono [] a b h l = tt
All-lt_mono (f ∷ fs) a b h l = (omega arith, All-lt_mono fs a b h l.1)

module _ {V Cb : Type 0} (up : ℕ → List ℕ) (c : Cache V Cb) (wf : IsCache up c) where
  abbrev self : ℕ
  self = length c.nodes

  module _ (n : MakeNode V Cb) (bare : n.ascendants ≡ []) (idle : n.mutex ≡ false) where
    abbrev grown : Nodes V Cb
    grown = c.nodes ++ n ∷ []

    grown-HasGraph : HasGraph up grown
    grown-HasGraph =
        get-append c.nodes n (λ j o. o.ascendants ≡ up j)
          (bare ∙ sym (no_ascendants self up wf.graph.acyclic)) wf.graph.graph

    grown-IsFree : IsFree grown
    grown-IsFree = get-append c.nodes n (λ j o. o.mutex ≡ false) idle wf.free

    grown-length : length grown ≡ self + 1
    grown-length = length-append c.nodes (n ∷ [])

    -- A new node with no ascendants, and file nodes within the longer list.
    grown-IsCache :
        (fs : List FileNode)
        → All (λ f. f.node < self + 1) fs
        → IsCache up (record { nodes = grown; file_nodes = fs })
    grown-IsCache fs h = record {
      graph = record {
        graph = grown-HasGraph;
        acyclic =
            subst (IsAcyclic up) (sym grown-length)
              (link_all-IsAcyclic self [] up wf.graph.acyclic tt);
      };
      free = grown-IsFree;
      files = subst (λ k. All (λ f. f.node < k) fs) (sym grown-length) h;
    }

  -- On a well-formed cache with no held mutex, make_doc, given documents that exist, adds one
  -- document at the next address: the cache stays well formed, its dependences are the old ones
  -- and those of the new document, and the new document depends on each document that it is made
  -- from.
  pub make_doc-IsCache :
      (w : World V Cb) (i : Ingredients V Cb)
      → All (λ d. d < length c.nodes) (needs i)
      → (c1 : Cache V Cb) × (make_doc w i c ≡ ok (self, c1))
        × IsCache (link_all self (needs i) up) c1
        × (length c1.nodes ≡ self + 1)
        × ((d : ℕ) → Elem d (needs i) → Reaches (link_all self (needs i) up) self d)
  unfolding make_doc
  make_doc-IsCache w (file_at path) l =
      let n = record (make_node w file true) { filepath = path } in
      let fs = record { node = self; mtime = 0 } ∷ c.file_nodes in
      (
        record { nodes = c.nodes ++ n ∷ []; file_nodes = fs },
        refl,
        grown-IsCache n refl refl fs
            (omega arith, All-lt_mono c.file_nodes self (self + 1) (omega arith) wf.files),
        grown-length n refl refl,
        λ d m. elim m [ ],
      )
  make_doc-IsCache w (datum_of recipe) l =
      let n = record (make_node w datum false) { payload = recipe } in
      (
        record c { nodes = c.nodes ++ n ∷ [] },
        refl,
        grown-IsCache n refl refl c.file_nodes
            (All-lt_mono c.file_nodes self (self + 1) (omega arith) wf.files),
        grown-length n refl refl,
        λ d m. elim m [ ],
      )
  make_doc-IsCache w (docs ds recipe) l =
      let n = record (make_node w chain true) { callback = some recipe } in
      let size = grown-length n refl refl in
      let exist : All (λ d. d < length (c.nodes ++ n ∷ [])) ds =
        subst (λ k. All (λ d. d < k) ds) (sym size)
          (All-of (λ d. d < self + 1) ds
            (λ a m. omega (arith, All-Elem (λ d. d < self) ds a l m))) in
      let (ns, run, g, free, kept) =
        add_ascendants_lem self ds up (add_node n c) (grown-HasGraph n refl refl)
          (grown-IsFree n refl refl) exist in
      (
        record c { nodes = ns },
        rw run,
        record {
          graph = record {
            graph = g;
            acyclic =
                subst (IsAcyclic (link_all self ds up)) (sym (kept ∙ size))
                  (link_all-IsAcyclic self ds up wf.graph.acyclic l);
          };
          free = free;
          files =
              subst (λ k. All (λ f. f.node < k) c.file_nodes) (sym (kept ∙ size))
                (All-lt_mono c.file_nodes self (self + 1) (omega arith) wf.files);
        },
        kept ∙ size,
        λ d m. above self (link_all-Elem self ds up d m) (itself refl),
      )
