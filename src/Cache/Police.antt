-- ===== src/Cache/Police.antt =====
-- `police_cache` and `shutdown_cache` of src/cache.c.
use gusher.Base.{
  ℕ, ◌<◌, ◌≡◌, ◌≢◌, ◌⊎◌, inl, inr, refl, sym, ap, ◌∙◌, Bytes, true, false, List, [], ◌∷◌, ◌==◌, leb,
  if◌then◌else◌, Option, none, some, Run, ok, ◌>>=◌, or_fault, get_elem?, length, arith, Elem, All,
  get_elem?-some, get_elem?-lt, Bool-cases, Option-cases, subst, some_injective, ==_iff, leb→le,
  max, map,
}
use gusher.Cache.Graph.{Reaches, Marks, Marks-field, Marks-none}
use gusher.Cache.Invalidate.{Marks-trans, Marks-iff, Marks-IsGraph, IsGraph}
use gusher.Cache.Touch.{invalidate_nodes_lem}
use gusher.Cache.{Cache, Nodes, MakeNode, FileNode, invalidate_nodes}

module _ {V Cb : Type 0} where
  -- One file node's turn in `police_cache`: its new `mtime` and whether its node is invalidated.
  police_one : (Bytes → Option ℕ) → FileNode → Cache V Cb → Run (FileNode × Cache V Cb)
  police_one stat fnode c = do
    node ← or_fault (get_elem? c.nodes fnode.node)
    elim (stat node.filepath) [
      | none ↦ ok (fnode, c)
      | some st_mtime ↦
          if fnode.mtime == 0
          then ok (record fnode { mtime = st_mtime }, c)
          else if leb st_mtime fnode.mtime
          then ok (fnode, c)
          else (do c ← invalidate_nodes fnode.node c; ok (record fnode { mtime = st_mtime }, c))
    ]

  -- The loop of `police_cache`; it returns the file nodes as they are afterwards.
  police_loop : (Bytes → Option ℕ) → List FileNode → Cache V Cb → Run (List FileNode × Cache V Cb)
  unfolding police_one
  police_loop stat [] c = ok ([], c)
  police_loop stat (fnode ∷ next) c = do
    (fnode, c) ← police_one stat fnode c
    (fnodes, c) ← police_loop stat next c
    ok (fnode ∷ fnodes, c)

  -- `police_cache`, where `stat` gives a file's time of change.
  unfoldable pub police_cache : (Bytes → Option ℕ) → Cache V Cb → Run (Cache V Cb)
  unfolding police_loop
  police_cache stat c = do
    (fnodes, c) ← police_loop stat c.file_nodes c
    ok (record c { file_nodes = fnodes })

  -- `shutdown_cache`
  unfoldable pub shutdown_cache : Cache V Cb → Cache V Cb
  shutdown_cache c = record c { file_nodes = [] }

-- The time of change that a file node holds after a look at its file.
abbrev pub newest : Option ℕ → ℕ → ℕ
newest none mtime = mtime
newest (some st_mtime) mtime = max st_mtime mtime

module _ {V Cb : Type 0} where
  abbrev pub HasPaths : (ℕ → Bytes) → Nodes V Cb → Type 0
  HasPaths paths ns = (j : ℕ) (n : MakeNode V Cb) → get_elem? ns j ≡ some n → n.filepath ≡ paths j

module _ (stat : Bytes → Option ℕ) (paths : ℕ → Bytes) where
  abbrev pub seen : FileNode → FileNode
  seen f = record f { mtime = newest (stat (paths f.node)) f.mtime }

  -- The file was looked at before, and has changed since.
  abbrev pub HasChanged : FileNode → Type 0
  HasChanged f = (t : ℕ) × (stat (paths f.node) ≡ some t) × (f.mtime ≢ 0) × (f.mtime < t)

  -- `j` depends on the node of a file that has changed.
  abbrev pub IsStale : (ℕ → List ℕ) → List FileNode → ℕ → Type 0
  IsStale up fs j = (f : FileNode) × Elem f fs × HasChanged f × Reaches up j f.node

All-lt :
    (fs : List FileNode) {a b : ℕ} → a ≡ b → All (λ f. f.node < a) fs → All (λ f. f.node < b) fs
All-lt fs e h = subst (λ k. All (λ f. f.node < k) fs) e h

module _ {V Cb : Type 0} (stat : Bytes → Option ℕ) (paths : ℕ → Bytes) (up : ℕ → List ℕ) where
  -- What one file node's turn leaves, for the given result `st` of `stat`.
  abbrev Looked : FileNode → Cache V Cb → Run (FileNode × Cache V Cb) → Type 0
  Looked f c r =
      (ns : Nodes V Cb) × (r ≡ ok (seen stat paths f, record c { nodes = ns }))
      × Marks (λ j. HasChanged stat paths f × Reaches up j f.node) c.nodes ns

  unmarked :
      (f : FileNode) (c : Cache V Cb)
      → ¬ HasChanged stat paths f
      → Marks (λ j. HasChanged stat paths f × Reaches up j f.node) c.nodes c.nodes
  unmarked f c quiet = Marks-iff (λ j e. absurd e) (λ j p. quiet p.0) Marks-none

  module _ (f : FileNode) (c : Cache V Cb) (n : MakeNode V Cb)
      (at_n : get_elem? c.nodes f.node ≡ some n) (path : n.filepath ≡ paths f.node) where
    police_one-none : stat (paths f.node) ≡ none → Looked f c (police_one stat f c)
    unfolding police_one
    police_one-none none_there =
        (c.nodes, rw (at_n, path, none_there), unmarked f c (λ h. cc (h.1, none_there)))

    police_one-first :
        (t : ℕ) → stat (paths f.node) ≡ some t → f.mtime ≡ 0 → Looked f c (police_one stat f c)
    unfolding police_one
    police_one-first t there first = (
      c.nodes,
      rw (at_n, path, there)
          (rw ((==_iff f.mtime 0).1 first)
            (ap (λ m. ok (record { node = f.node; mtime = m }, c)) (omega arith))),
      unmarked f c (λ h. h.2 first),
    )

    police_one-old :
        (t : ℕ)
        → stat (paths f.node) ≡ some t
        → (f.mtime == 0) ≡ false
        → leb t f.mtime ≡ true
        → Looked f c (police_one stat f c)
    unfolding police_one
    police_one-old t there seen_before old = (
      c.nodes,
      rw (at_n, path, there)
          (rw (seen_before, old)
            (ap (λ m. ok (record { node = f.node; mtime = m }, c))
              (omega (arith, leb→le t f.mtime old)))),
      unmarked f c (λ h. ground (arith, h.3, some_injective (sym h.1 ∙ there))),
    )

    police_one-new :
        (t : ℕ)
        → IsGraph up c.nodes
        → stat (paths f.node) ≡ some t
        → (f.mtime == 0) ≡ false
        → leb t f.mtime ≡ false
        → Looked f c (police_one stat f c)
    unfolding police_one
    police_one-new t g there seen_before new =
        let (ns, run, marks) =
          invalidate_nodes_lem up f.node c g (get_elem?-lt c.nodes f.node at_n) in
        (
          ns,
          rw (at_n, path, there)
              (rw (seen_before, new)
                (rw run (
                  ap (λ m. ok (record { node = f.node; mtime = m }, record c { nodes = ns }))
                    (ground arith)))),
          Marks-iff (λ j r. ((t, there, ground arith, ground arith), r)) (λ j p. p.1) marks,
        )

  police_one-Marks :
      (f : FileNode) (c : Cache V Cb)
      → IsGraph up c.nodes
      → HasPaths paths c.nodes
      → f.node < length c.nodes
      → Looked f c (police_one stat f c)
  police_one-Marks f c g h l =
      let (n, at_n) = get_elem?-some c.nodes f.node l in
      let path = h f.node n at_n in
      elim (Option-cases (stat (paths f.node))) [
        | inl gone ↦ police_one-none f c n at_n path gone
        | inr (t, there) ↦ (elim (Bool-cases (f.mtime == 0)) [
          | inl first ↦ police_one-first f c n at_n path t there ((==_iff f.mtime 0).0 first)
          | inr again ↦ (elim (Bool-cases (leb t f.mtime)) [
            | inl old ↦ police_one-old f c n at_n path t there again old
            | inr new ↦ police_one-new f c n at_n path t g there again new
          ])
        ])
      ]

  police_loop-Marks :
      (fs : List FileNode) (c : Cache V Cb)
      → IsGraph up c.nodes
      → HasPaths paths c.nodes
      → All (λ f. f.node < length c.nodes) fs
      → (ns : Nodes V Cb) × (police_loop stat fs c
          ≡ ok (map (seen stat paths) fs, record c { nodes = ns }))
        × Marks (IsStale stat paths up fs) c.nodes ns
  unfolding police_loop
  police_loop-Marks [] c g h l =
      (c.nodes, refl, Marks-iff (λ j e. absurd e) (λ j (f, m, changed, r). elim m [ ]) Marks-none)
  police_loop-Marks (f ∷ fs) c g h l =
      let (ms, run, marks) = police_one-Marks f c g h l.0 in
      let c1 = record c { nodes = ms } in
      let paths' = Marks-field marks (λ x. x.filepath) paths (λ x. refl) h in
      let (ns, run', marks') =
        police_loop-Marks fs c1 (Marks-IsGraph up marks g) paths'
          (All-lt fs (sym marks.size) l.1) in
      (
        ns,
        rw run (rw run'),
        Marks-iff
            (λ j p. elim p [
              | inl (changed, r) ↦ (f, inl refl, changed, r)
              | inr (x, m, changed, r) ↦ (x, inr m, changed, r)
            ])
            (λ j (x, m, changed, r).
              let split : (x ≡ f) ⊎ Elem x fs = m in
              elim split [
                | inl e ↦
                    inl (subst (λ y. HasChanged stat paths y × Reaches up j y.node) e (changed, r))
                | inr m' ↦ inr (x, m', changed, r)
              ])
            (Marks-trans marks marks'),
      )

  -- On a well-formed cache whose file nodes lie in it, police_cache ends; each file node that has
  -- a file then holds the newest time of change that was seen, and exactly the documents that
  -- depend on a file that was looked at before and has changed since are marked dirty. A first
  -- look marks nothing.
  pub police_cache-Marks :
      (c : Cache V Cb)
      → IsGraph up c.nodes
      → HasPaths paths c.nodes
      → All (λ f. f.node < length c.nodes) c.file_nodes
      → (ns : Nodes V Cb) × (police_cache stat c
          ≡ ok (record { nodes = ns; file_nodes = map (seen stat paths) c.file_nodes }))
        × Marks (IsStale stat paths up c.file_nodes) c.nodes ns
  unfolding police_cache
  police_cache-Marks c g h l =
      let (ns, run, marks) = police_loop-Marks c.file_nodes c g h l in (ns, rw run, marks)
