-- ===== src/Cache/Fetch.antt =====
-- `fetch_node` and `touch_node` of src/cache.c: what a client of the cache sees.
use gusher.Base.{
  ℕ, ◌≡◌, refl, sym, ap, ◌∙◌, true, false, List, none, some, ok, ◌>>=◌, get_elem?, set, set-set,
  set_same, get_elem?-set_self,
}
use gusher.Cache.{
  Cache, Nodes, MakeNode, World, update, lock, unlock, finish, store_payload, regenerate, chain,
  fetch_locked, fetch_node,
}

module _ {V Cb : Type 0} where
  pub lock_free :
      (i : ℕ) (c : Cache V Cb) (n : MakeNode V Cb)
      → get_elem? c.nodes i ≡ some n
      → n.mutex ≡ false
      → lock i c ≡ ok (some (update c i (record n { mutex = true })))
  unfolding lock
  lock_free i c n e free = rw e (rw free)

  lock_held :
      (i : ℕ) (c : Cache V Cb) (n : MakeNode V Cb)
      → get_elem? c.nodes i ≡ some n
      → n.mutex ≡ true
      → lock i c ≡ ok none
  unfolding lock
  lock_held i c n e held = rw e (rw held)

  pub unlock_lem :
      (i : ℕ) (c : Cache V Cb) (n : MakeNode V Cb)
      → get_elem? c.nodes i ≡ some n
      → unlock i c ≡ ok (update c i (record n { mutex = false }))
  unfolding unlock
  unlock_lem i c n e = rw e

  finish_lem :
      (w : World V Cb) (i : ℕ) (c : Cache V Cb) (n : MakeNode V Cb)
      → get_elem? c.nodes i ≡ some n
      → finish w i c ≡ ok (some n.payload, update c i (record n { mutex = false }))
  unfolding finish
  finish_lem w i c n e = rw e (rw (unlock_lem i c n e))

  module _ (w : World V Cb) (doc : ℕ) (args : List V) (c : Cache V Cb) (n : MakeNode V Cb)
      (at_doc : get_elem? c.nodes doc ≡ some n) where
    fetch_locked-clean : n.dirty ≡ false → fetch_locked w doc args c ≡ finish w doc c
    unfolding fetch_locked
    fetch_locked-clean clean = rw at_doc (rw clean)

    fetch_locked-chain :
        n.dirty ≡ true
        → n.kind ≡ chain
        → fetch_locked w doc args c ≡ (
            w.apply n.callback args (update c doc (record n { dirty = false }))
            >>= store_payload w doc)
    unfolding fetch_locked
    fetch_locked-chain dirty kind = rw at_doc (rw dirty (rw kind (unfold regenerate in refl)))

  module _ (w : World V Cb) (doc : ℕ) (args : List V) (c : Cache V Cb) (n : MakeNode V Cb)
      (at_doc : get_elem? c.nodes doc ≡ some n) (free : n.mutex ≡ false) where
    abbrev held : MakeNode V Cb
    held = record n { mutex = true }

    released : record n { mutex = false } ≡ n
    released i = record n { mutex = sym free i }

    at_held : get_elem? (set c.nodes doc held) doc ≡ some held
    at_held = get_elem?-set_self c.nodes doc held at_doc

    restored : update (update c doc held) doc (record n { mutex = false }) ≡ c
    restored =
        ap (λ (ns : Nodes V Cb). record c { nodes = ns })
          (set-set c.nodes doc held _
            ∙ ap (set c.nodes doc) released
            ∙ set_same c.nodes doc n at_doc)

    -- A document that is not dirty and whose mutex is free is answered with its payload, and the
    -- cache is left as it was.
    pub fetch_node-clean : n.dirty ≡ false → fetch_node w doc args c ≡ ok (some n.payload, c)
    unfolding fetch_node
    fetch_node-clean clean = rw (lock_free doc c n at_doc free) (
        fetch_locked-clean w doc args (update c doc held) held at_held clean
        ∙ finish_lem w doc (update c doc held) held at_held
        ∙ ap (λ d. ok (some n.payload, d)) restored)

    -- The cache in which a recipe runs: the flag is down and the mutex is held.
    abbrev pub running : Cache V Cb
    running = update c doc (record n { mutex = true; dirty = false })

    -- A dirty document with a recipe is made again: the recipe runs, whatever it does to the cache
    -- is kept, and its value is stored and returned.
    pub fetch_node-chain :
        n.dirty ≡ true
        → n.kind ≡ chain
        → fetch_node w doc args c ≡ (w.apply n.callback args running >>= store_payload w doc)
    unfolding fetch_node
    fetch_node-chain dirty kind = rw (lock_free doc c n at_doc free) (
        fetch_locked-chain w doc args (update c doc held) held at_held dirty kind
        ∙ ap
            (λ (ns : Nodes V Cb).
              w.apply n.callback args (record c { nodes = ns }) >>= store_payload w doc)
            (set-set c.nodes doc held _))

  -- After a recipe raised an exception the document's mutex is still held, and no later fetch of
  -- the document gives a value or changes anything.
  pub fetch_node-held :
      (w : World V Cb) (doc : ℕ) (args : List V) (c : Cache V Cb) (n : MakeNode V Cb)
      → get_elem? c.nodes doc ≡ some n
      → n.mutex ≡ true
      → fetch_node w doc args c ≡ ok (none, c)
  unfolding fetch_node
  fetch_node-held w doc args c n e h = rw (lock_held doc c n e h)
