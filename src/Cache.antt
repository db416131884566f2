-- ===== src/Cache.antt =====
-- Documents that are made again when what they depend on changes: src/cache.c. A node lives in the
-- list of nodes at the index that stands for its address; a smob is that index.
pub mod Graph
pub mod Invalidate
pub mod Making
pub mod Growth
pub mod Fetch
pub mod Touch
pub mod Police
use gusher.Base.{
  ℕ, zero, suc, ◌+◌, Bytes, Bool, true, false, List, [], ◌∷◌, ◌++◌, ◌==◌, leb, if◌then◌else◌,
  Option, none, some, Run, ok, fault, out_of_fuel, ◌>>=◌, or_fault, get_elem?, set, length,
}

-- `TYPE_DATUM`, `TYPE_FILE`, `TYPE_CHAIN`.
pub data NodeType : Type 0 where
  datum file chain : NodeType

-- `struct make_node`, over the types of Scheme values and of recipes. The flag `mutex` says that
-- the mutex is held.
pub record MakeNode (V Cb : Type 0) : Type 0 where
  pub callback : Option Cb
  pub payload : V
  pub ascendants : List ℕ
  pub mutex : Bool
  pub filepath : Bytes
  pub kind : NodeType
  pub dirty : Bool

-- `struct file_node`
pub record FileNode : Type 0 where
  pub node : ℕ
  pub mtime : ℕ

pub record Cache (V Cb : Type 0) : Type 0 where
  pub nodes : List (MakeNode V Cb)
  pub file_nodes : List FileNode

-- What the component takes from outside: the value `#f`, the file system, the
-- conversions between a value and its text (a value that is no string has none), and the run of a Scheme recipe, which may use the cache and may raise an exception.
pub record World (V Cb : Type 0) : Type 0 where
  pub bool_f : V
  pub contents : Bytes → Option Bytes
  pub from_text : Bytes → V
  pub path_text : V → Option Bytes
  pub apply : Option Cb → List V → Cache V Cb → Run (Option V × Cache V Cb)

abbrev pub Nodes : Type 0 → Type 0 → Type 0
Nodes V Cb = List (MakeNode V Cb)

-- The walk over a list of ascendants, with the call that `invalidate` makes for each.
unfoldable pub each : {A : Type 0} → (ℕ → A → Run A) → List ℕ → A → Run A
each visit [] s = ok s
each visit (cursor ∷ rest) s = do s ← visit cursor s; each visit rest s

module _ {V Cb : Type 0} where
  -- `invalidate`; the fuel bounds the depth of the calls.
  unfoldable pub invalidate : ℕ → ℕ → Nodes V Cb → Run (Nodes V Cb)
  unfolding each
  invalidate zero i ns = out_of_fuel
  invalidate (suc fuel) i ns = do
    node ← or_fault (get_elem? ns i)
    each (invalidate fuel) node.ascendants (set ns i (record node { dirty = true }))

  -- Ascendants are made after what they depend on, so there are fewer calls than nodes in depth.
  unfoldable pub invalidate_nodes : ℕ → Cache V Cb → Run (Cache V Cb)
  unfolding invalidate
  invalidate_nodes i c = do ns ← invalidate (length c.nodes) i c.nodes; ok (record c { nodes = ns })

  -- `touched_node`
  unfoldable pub touched_node : ℕ → Cache V Cb → Run Bool
  touched_node doc c = do node ← or_fault (get_elem? c.nodes doc); ok node.dirty

  abbrev pub update : Cache V Cb → ℕ → MakeNode V Cb → Cache V Cb
  update c i n = record c { nodes = set c.nodes i n }

  -- `scm_lock_mutex(node->mutex)`: on a mutex that is held the call gives nothing (an exception,
  -- or a wait for a thread that never lets go).
  unfoldable pub lock : ℕ → Cache V Cb → Run (Option (Cache V Cb))
  lock i c = do
    node ← or_fault (get_elem? c.nodes i)
    ok (if node.mutex then none else some (update c i (record node { mutex = true })))

  unfoldable pub unlock : ℕ → Cache V Cb → Run (Cache V Cb)
  unlock i c = do
    node ← or_fault (get_elem? c.nodes i)
    ok (update c i (record node { mutex = false }))

  module _ (w : World V Cb) where
    -- The `switch` of `touch_node`: nothing where the new path is no string, which is an exception.
    assign : NodeType → MakeNode V Cb → V → Option (MakeNode V Cb)
    assign datum node arg = some (record node { payload = arg })
    assign file node arg = elim (w.path_text arg) [
      | none ↦ none
      | some path ↦ some (record node { filepath = path })
    ]
    assign chain node arg = some node

    assign_at : ℕ → Option (MakeNode V Cb) → Cache V Cb → Run (Bool × Cache V Cb)
    assign_at doc none c = ok (false, c)
    assign_at doc (some node) c = do c ← unlock doc (update c doc node); ok (true, c)

    touch_locked : ℕ → List V → Cache V Cb → Run (Bool × Cache V Cb)
    unfolding assign assign_at
    touch_locked doc [] c = do c ← invalidate_nodes doc c; c ← unlock doc c; ok (true, c)
    touch_locked doc (arg ∷ args) c = do
      c ← invalidate_nodes doc c
      node ← or_fault (get_elem? c.nodes doc)
      assign_at doc (assign node.kind node arg) c

    -- `touch_node`; false where the mutex is held or an exception leaves the function.
    unfoldable pub touch_node : ℕ → List V → Cache V Cb → Run (Bool × Cache V Cb)
    unfolding touch_locked
    touch_node doc args c = do
      locked ← lock doc c
      elim locked [ none ↦ ok (false, c) | some c ↦ touch_locked doc args c ]

    -- `load_from_file`, as far as `fetch_node` uses it.
    load_from_file : MakeNode V Cb → V
    load_from_file node = elim (w.contents node.filepath) [
      | none ↦ w.bool_f
      | some buf ↦ w.from_text buf
    ]

    -- The end of `fetch_node`: read the payload and let go of the mutex.
    pub finish : ℕ → Cache V Cb → Run (Option V × Cache V Cb)
    finish doc c = do
      node ← or_fault (get_elem? c.nodes doc)
      c ← unlock doc c
      ok (some node.payload, c)

    -- What a recipe gave: an exception leaves `fetch_node` on the spot.
    unfoldable pub store_payload : ℕ → Option V × Cache V Cb → Run (Option V × Cache V Cb)
    unfolding finish
    store_payload doc (none, c) = ok (none, c)
    store_payload doc (some v, c) = do
      node ← or_fault (get_elem? c.nodes doc)
      finish doc (update c doc (record node { payload = v }))

    -- The `switch` of `fetch_node`, on a node whose `dirty` flag is down again.
    regenerate : NodeType → ℕ → MakeNode V Cb → List V → Cache V Cb → Run (Option V × Cache V Cb)
    unfolding load_from_file store_payload
    regenerate datum doc node args c = finish doc c
    regenerate file doc node args c = store_payload doc (some (load_from_file node), c)
    regenerate chain doc node args c = do
      made ← w.apply node.callback args c
      store_payload doc made

    fetch_locked : ℕ → List V → Cache V Cb → Run (Option V × Cache V Cb)
    unfolding regenerate
    fetch_locked doc args c = do
      node ← or_fault (get_elem? c.nodes doc)
      if node.dirty
          then regenerate node.kind doc node args (update c doc (record node { dirty = false }))
          else finish doc c

    -- `fetch_node`; no value where the mutex is held or the recipe raised an exception.
    unfoldable pub fetch_node : ℕ → List V → Cache V Cb → Run (Option V × Cache V Cb)
    unfolding fetch_locked
    fetch_node doc args c = do
      locked ← lock doc c
      elim locked [ none ↦ ok (none, c) | some c ↦ fetch_locked doc args c ]

    -- `make_node`; `dirty` is left to the caller there.
    abbrev pub make_node : NodeType → Bool → MakeNode V Cb
    make_node kind dirty = record {
      callback = none;
      payload = w.bool_f;
      ascendants = [];
      mutex = false;
      filepath = [];
      kind = kind;
      dirty = dirty;
    }
