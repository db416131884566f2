-- ===== src/Cache/Touch.antt =====
-- `touch_node` of src/cache.c marks a document and what depends on it, and a document that is
-- marked is made again by the next fetch.
use gusher.Base.{
  ℕ, ◌<◌, ◌≡◌, inl, inr, refl, sym, ap, ◌∙◌, true, false, List, [], ◌==◌, some, ok, ◌>>=◌,
  get_elem?, set, length, length-set, get_elem?-set, get_elem?-lt, Bool-cases, get_elem?-set_self,
  ==_iff, some_injective, subst,
}
use gusher.Cache.Fetch.{lock_free, unlock_lem, fetch_node-chain}
use gusher.Cache.Graph.{Reaches, itself, MarkedAt, Marks}
use gusher.Cache.Invalidate.{IsGraph, invalidate-Marks}
use gusher.Cache.{
  Cache, Nodes, MakeNode, World, update, chain, store_payload, fetch_node, touch_node,
  invalidate_nodes,
}

module _ {V Cb : Type 0} where
  -- `invalidate` through the cache record.
  pub invalidate_nodes_lem :
      (up : ℕ → List ℕ) (i : ℕ) (c : Cache V Cb)
      → IsGraph up c.nodes
      → i < length c.nodes
      → (ns : Nodes V Cb) × (invalidate_nodes i c ≡ ok (record c { nodes = ns }))
        × Marks (λ j. Reaches up j i) c.nodes ns
  unfolding invalidate_nodes
  invalidate_nodes_lem up i c g h =
      let m = invalidate-Marks up i c.nodes g h in (m.after, rw m.result, m.marks)

  -- The graph does not depend on the flags or the mutex of a node.
  set-IsGraph :
      (up : ℕ → List ℕ) (ns : Nodes V Cb) (i : ℕ) (n m : MakeNode V Cb)
      → get_elem? ns i ≡ some n
      → m.ascendants ≡ n.ascendants
      → IsGraph up ns
      → IsGraph up (set ns i m)
  set-IsGraph up ns i n m e same g = record {
    graph = λ j o at_j. elim (Bool-cases (i == j)) [
      | inl h ↦
          let new : some m ≡ some o =
            sym (rw h at (get_elem?-set ns i j m (get_elem?-lt ns i e))) ∙ at_j in
          ap (λ (x : MakeNode V Cb). x.ascendants) (sym (some_injective new))
          ∙ same
          ∙ g.graph i n e
          ∙ ap up ((==_iff i j).0 h)
      | inr h ↦ g.graph j o (sym (rw h at (get_elem?-set ns i j m (get_elem?-lt ns i e))) ∙ at_j)
    ];
    acyclic = rw length-set g.acyclic;
  }

module _ {V Cb : Type 0} (ns ms : Nodes V Cb) (d : ℕ) (n m : MakeNode V Cb)
    (at_d : get_elem? ns d ≡ some n) (free : n.mutex ≡ false) (at_m : get_elem? ms d ≡ some m) where
  abbrev locked : Nodes V Cb
  locked = set ns d (record n { mutex = true })

  abbrev unlocked : Nodes V Cb
  unlocked = set ms d (record m { mutex = false })

  module _ {P : ℕ → Type 0} (marks : Marks P locked ms) where
    unlocked-at :
        (j : ℕ) → (d == j) ≡ true → get_elem? unlocked j ≡ some (record m { mutex = false })
    unlocked-at j h = get_elem?-set ms d j _ (get_elem?-lt ms d at_m) ∙ rw h

    unlocked-off : (j : ℕ) → (d == j) ≡ false → get_elem? unlocked j ≡ get_elem? ms j
    unlocked-off j h = get_elem?-set ms d j _ (get_elem?-lt ms d at_m) ∙ rw h

    locked-off : (j : ℕ) → (d == j) ≡ false → get_elem? locked j ≡ get_elem? ns j
    locked-off j h = get_elem?-set ns d j _ (get_elem?-lt ns d at_d) ∙ rw h

    locked-at : get_elem? locked d ≡ some (record n { mutex = true })
    locked-at = get_elem?-set_self ns d _ at_d

    -- What became of the locked node, once its mutex is let go.
    MarkedAt-self : MarkedAt P ns unlocked d
    MarkedAt-self =
        let here = unlocked-at d ((==_iff d d).1 refl) in
        elim (marks.only d) [
          | inl same ↦
              let e : m ≡ record n { mutex = true } =
                some_injective (sym at_m ∙ same ∙ locked-at) in
              inl (
                here
                ∙ ap (λ (x : MakeNode V Cb). some (record x { mutex = false })) e
                ∙ ap (λ b. some (record n { mutex = b })) (sym free)
                ∙ sym at_d)
          | inr (o, old, new, p) ↦
              let e : m ≡ record o { dirty = true } = some_injective (sym at_m ∙ new) in
              let f : o ≡ record n { mutex = true } = some_injective (sym old ∙ locked-at) in
              inr (
                n,
                at_d,
                here
                    ∙ ap (λ (x : MakeNode V Cb). some (record x { mutex = false })) e
                    ∙ ap (λ (x : MakeNode V Cb). some (record x { mutex = false; dirty = true })) f
                    ∙ ap (λ b. some (record n { mutex = b; dirty = true })) (sym free),
                p,
              )
        ]

    Marks-unlock : Marks P ns unlocked
    Marks-unlock = record {
      size = length-set ms d _ ∙ marks.size ∙ length-set ns d _;
      only = λ j. elim (Bool-cases (d == j)) [
        | inl h ↦ subst (MarkedAt P ns unlocked) ((==_iff d j).0 h) MarkedAt-self
        | inr h ↦ (elim (marks.only j) [
          | inl same ↦ inl (unlocked-off j h ∙ same ∙ locked-off j h)
          | inr (o, old, new, p) ↦ inr (o, sym (locked-off j h) ∙ old, unlocked-off j h ∙ new, p)
        ])
      ];
      all = λ j p.
          let (o, e, dirty) = marks.all j p in
          elim (Bool-cases (d == j)) [
            | inl h ↦
                let same : m ≡ o =
                  some_injective (sym at_m ∙ ap (get_elem? ms) ((==_iff d j).0 h) ∙ e) in
                (
                  record m { mutex = false },
                  unlocked-at j h,
                  ap (λ (x : MakeNode V Cb). x.dirty) same ∙ dirty,
                )
            | inr h ↦ (o, unlocked-off j h ∙ e, dirty)
          ];
    }

module _ {V Cb : Type 0} where
  -- touch_node with no new value, on a well-formed cache and a document whose mutex is free,
  -- succeeds and marks exactly the document and every document that depends on it as dirty;
  -- nothing else of the cache changes.
  pub touch_node-Marks :
      (w : World V Cb) (up : ℕ → List ℕ) (d : ℕ) (c : Cache V Cb) (n : MakeNode V Cb)
      → IsGraph up c.nodes
      → get_elem? c.nodes d ≡ some n
      → n.mutex ≡ false
      → (ns : Nodes V Cb) × (touch_node w d [] c ≡ ok (true, record c { nodes = ns }))
        × Marks (λ j. Reaches up j d) c.nodes ns
  unfolding touch_node
  touch_node-Marks w up d c n g e free =
      let held = record n { mutex = true } in
      let c1 = update c d held in
      let g1 = set-IsGraph up c.nodes d n held e refl g in
      let within : d < length c1.nodes =
        subst (λ k. d < k) (sym (length-set c.nodes d held)) (get_elem?-lt c.nodes d e) in
      let (ms, run, marks) = invalidate_nodes_lem up d c1 g1 within in
      let (m, at_m, dirty) = marks.all d (itself refl) in
      (
        set ms d (record m { mutex = false }),
        rw (lock_free d c n e free) (rw run (rw (unlock_lem d (record c { nodes = ms }) m at_m))),
        Marks-unlock c.nodes ms d n m e free at_m marks,
      )

  -- On a well-formed cache, after a document with a free mutex is touched with no new value, the
  -- next fetch of any document with a recipe and a free mutex that depends on it, directly or
  -- through others, runs that document's recipe again instead of returning the value kept from
  -- before.
  pub fetch_node-touch_node :
      (w : World V Cb) (up : ℕ → List ℕ) (d : ℕ) (c : Cache V Cb) (n : MakeNode V Cb)
      → IsGraph up c.nodes
      → get_elem? c.nodes d ≡ some n
      → n.mutex ≡ false
      → (c1 : Cache V Cb) × (touch_node w d [] c ≡ ok (true, c1))
        × ((e : ℕ) (k : MakeNode V Cb) (args : List V)
            → Reaches up e d
            → get_elem? c.nodes e ≡ some k
            → k.mutex ≡ false
            → k.kind ≡ chain
            → fetch_node w e args c1 ≡ (
                w.apply k.callback args (update c1 e (record k { mutex = true; dirty = false }))
                >>= store_payload w e))
  fetch_node-touch_node w up d c n g at_d free =
      let (ns, run, marks) = touch_node-Marks w up d c n g at_d free in
      let c1 = record c { nodes = ns } in
      (
        c1,
        run,
        λ e k args r at_e idle kind. elim (marks.only e) [
          | inl same ↦
              let (o, at_o, dirty) = marks.all e r in
              let p : o ≡ k = some_injective (sym at_o ∙ same ∙ at_e) in
              fetch_node-chain w e args c1 k (same ∙ at_e) idle
                (ap (λ (x : MakeNode V Cb). x.dirty) (sym p) ∙ dirty) kind
          | inr (o, old, new, why) ↦
              let p : o ≡ k = some_injective (sym old ∙ at_e) in
              let at_new : get_elem? ns e ≡ some (record k { dirty = true }) =
                new ∙ ap (λ (x : MakeNode V Cb). some (record x { dirty = true })) p in
              fetch_node-chain w e args c1 (record k { dirty = true }) at_new idle refl kind
        ],
      )
