-- ===== src/Tests/Documents.antt =====
-- The document cache, src/cache.c.
use gusher.Base.{
  ◌≡◌, refl, ℕ, List, [], ◌∷◌, ◌==◌, ◌<◌, ◌+◌, Bool, true, false, some, none, ok, arith, get_elem?,
  length, Elem, All, zero, suc, sym, ap, some_injective, ◌>>=◌,
}
use gusher.Cache.Graph.{Reaches, Marks}
use gusher.Cache.Growth.{IsCache, IsFree, make_doc-IsCache}
use gusher.Cache.Invalidate.{Marked, invalidate-Marks}
use gusher.Cache.Making.{docs, make_doc, link_all}
use gusher.Cache.Police.{police_cache, police_cache-Marks, IsStale}
use gusher.Cache.Touch.{fetch_node-touch_node}
use gusher.Cache.{
  Cache, MakeNode, World, NodeType, file, chain, update, fetch_node, touch_node, invalidate,
  store_payload,
}

-- Values and recipes are numbers. Recipe 9 raises an exception; any other gives its own number.
abbrev world : World ℕ ℕ
world = record {
  bool_f = 0;
  contents = λ path. none;
  from_text = length;
  path_text = λ v. none;
  apply = λ recipe args c. elim recipe [
    | none ↦ ok (some 0, c)
    | some r ↦ ok (elim (r == 9) [ true ↦ none | false ↦ some r ], c)
  ];
}

abbrev node_of : List ℕ → NodeType → Bool → MakeNode ℕ ℕ
node_of up kind dirty = record {
  callback = some 7;
  payload = 5;
  ascendants = up;
  mutex = false;
  filepath = [];
  kind = kind;
  dirty = dirty;
}

-- A file, and a document made from it.
abbrev cache : Cache ℕ ℕ
cache = record {
  nodes = node_of (1 ∷ []) file false ∷ node_of [] chain false ∷ [];
  file_nodes = record { node = 0; mtime = 4 } ∷ [];
}

abbrev graph : ℕ → List ℕ
graph zero = 1 ∷ []
graph (suc j) = []

cache-arrows :
    (j : ℕ) (n : MakeNode ℕ ℕ) → get_elem? cache.nodes j ≡ some n → n.ascendants ≡ graph j
cache-arrows zero n e = sym (ap (λ (x : MakeNode ℕ ℕ). x.ascendants) (some_injective e))
cache-arrows (suc zero) n e = sym (ap (λ (x : MakeNode ℕ ℕ). x.ascendants) (some_injective e))
cache-arrows (suc (suc j)) n e = cc

cache-above : (i : ℕ) → All (λ a. (i < a) × (a < 2)) (graph i)
cache-above zero = omega arith
cache-above (suc i) = tt

cache-idle : IsFree cache.nodes
cache-idle zero n e = sym (ap (λ (x : MakeNode ℕ ℕ). x.mutex) (some_injective e))
cache-idle (suc zero) n e = sym (ap (λ (x : MakeNode ℕ ℕ). x.mutex) (some_injective e))
cache-idle (suc (suc j)) n e = cc

cache-paths : (j : ℕ) (n : MakeNode ℕ ℕ) → get_elem? cache.nodes j ≡ some n → n.filepath ≡ []
cache-paths zero n e = sym (ap (λ (x : MakeNode ℕ ℕ). x.filepath) (some_injective e))
cache-paths (suc zero) n e = sym (ap (λ (x : MakeNode ℕ ℕ). x.filepath) (some_injective e))
cache-paths (suc (suc j)) n e = cc

cache-IsCache : IsCache graph cache
cache-IsCache = record {
  graph = record { graph = cache-arrows; acyclic = cache-above };
  free = cache-idle;
  files = (omega arith, tt);
}

invalidate-Marks_example : Marked (λ j. Reaches graph j 0) cache.nodes (invalidate 2 0 cache.nodes)
invalidate-Marks_example = invalidate-Marks graph 0 cache.nodes cache-IsCache.graph (omega arith)

make_doc-IsCache_example :
    (c1 : Cache ℕ ℕ) × (make_doc world (docs (0 ∷ 0 ∷ []) 8) cache ≡ ok (2, c1))
    × IsCache (link_all 2 (0 ∷ 0 ∷ []) graph) c1
    × (length c1.nodes ≡ 2 + 1)
    × ((d : ℕ) → Elem d (0 ∷ 0 ∷ []) → Reaches (link_all 2 (0 ∷ 0 ∷ []) graph) 2 d)
make_doc-IsCache_example =
    make_doc-IsCache graph cache cache-IsCache world (docs (0 ∷ 0 ∷ []) 8) (omega arith)

police_cache-Marks_example :
    (ns : List (MakeNode ℕ ℕ)) × (police_cache (λ path. some 6) cache
      ≡ ok (record { nodes = ns; file_nodes = record { node = 0; mtime = 6 } ∷ [] }))
    × Marks (IsStale (λ path. some 6) (λ j. []) graph cache.file_nodes) cache.nodes ns
police_cache-Marks_example =
    police_cache-Marks (λ path. some 6) (λ j. []) graph cache cache-IsCache.graph cache-paths
      (omega arith)

fetch_node-touch_node_example :
    (c1 : Cache ℕ ℕ) × (touch_node world 0 [] cache ≡ ok (true, c1))
    × ((e : ℕ) (k : MakeNode ℕ ℕ) (args : List ℕ)
        → Reaches graph e 0
        → get_elem? cache.nodes e ≡ some k
        → k.mutex ≡ false
        → k.kind ≡ chain
        → fetch_node world e args c1 ≡ (
            world.apply k.callback args (update c1 e (record k { mutex = true; dirty = false }))
            >>= store_payload world e))
fetch_node-touch_node_example =
    fetch_node-touch_node world graph 0 cache (node_of (1 ∷ []) file false) cache-IsCache.graph refl
      refl
