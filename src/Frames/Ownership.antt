-- ===== src/Frames/Ownership.antt =====
-- Who holds each frame, src/main.c: the pool, the queue, or the code that runs a request.
use gusher.Base.{
  ℕ, suc, ◌+◌, ◌<◌, ◌≤◌, ◌≡◌, refl, ap, sym, ◌∙◌, Bool, true, false, List, [], ◌∷◌, ◌++◌,
  if◌then◌else◌, Option, none, some, ok, get_elem?, length, ltb, length-append, length-set,
  get_elem?-some, get_elem?-append_left, get_elem?-set_self, arith, ==_self,
}
use gusher.Frames.{
  Frame, Server, put, blank_frame, take_free, get_frame, release_frame, link, enqueue_frame,
}
use gusher.Frames.Chain.{Chain, Chain-set, Chain-append, occurs, occurs-append}
use gusher.Frames.Chain.{
  last_of, last_of-append, last_of-occurs, Chain-link, client_of, client_of-set, client_of-cong,
}

-- `req_tail` is read only where the queue is not empty.
abbrev pub IsTail : Option ℕ → List ℕ → Type 0
IsTail tail [] = Unit
IsTail tail (x ∷ xs) = tail ≡ some (last_of x xs)

-- Each frame is in one place only: the free list, the queue, or a thread's hands.
abbrev pub IsOwned : Server → List ℕ → List ℕ → List ℕ → Type 0
IsOwned s pool queue held =
    (a : ℕ)
    → occurs a pool + occurs a queue + occurs a held ≡ (if ltb a (length s.frames) then 1 else 0)

pub record IsServer (s : Server) (pool queue held : List ℕ) : Type 0 where
  pub pool_chain : Chain s.frames s.req_pool pool
  pub queue_chain : Chain s.frames s.req_queue queue
  pub tail : IsTail s.req_tail queue
  pub owned : IsOwned s pool queue held

pub held_frame :
    (s : Server) (pool queue held : List ℕ) (a : ℕ)
    → IsServer s pool queue (a ∷ held)
    → (f : Frame) × (get_elem? s.frames a ≡ some f)
held_frame s pool queue held a w =
    let o : 1 ≤ (if ltb a (length s.frames) then 1 else 0) = ground (arith, w.owned a, ==_self a) in
    get_elem?-some s.frames a (ground arith)

-- Any write to a held frame keeps the server.
pub put-IsServer :
    (s : Server) (pool queue held : List ℕ) (a : ℕ) (f : Frame)
    → IsServer s pool queue (a ∷ held)
    → IsServer (put s a f) pool queue (a ∷ held)
put-IsServer s pool queue held a f w =
    let l : a < length s.frames = ground (arith, w.owned a, ==_self a) in
    let pool_apart : occurs a pool ≡ 0 = ground (arith, w.owned a, ==_self a) in
    let queue_apart : occurs a queue ≡ 0 = ground (arith, w.owned a, ==_self a) in
    record {
      pool_chain = Chain-set s.frames a f l s.req_pool pool pool_apart w.pool_chain;
      queue_chain = Chain-set s.frames a f l s.req_queue queue queue_apart w.queue_chain;
      tail = w.tail;
      owned = λ b. rw (length-set s.frames a f) (w.owned b);
    }

-- `get_frame` hands out the pool's first frame, or a new one.
pub get_frame-IsServer :
    (s : Server) (pool queue held : List ℕ)
    → IsServer s pool queue held
    → (a : ℕ) × (t : Server) × (rest : List ℕ) × (get_frame s ≡ ok (a, t))
      × IsServer t rest queue (a ∷ held)
      × ((b : ℕ) → b < length s.frames → client_of t.frames b ≡ client_of s.frames b)
unfolding get_frame take_free
get_frame-IsServer s [] queue held w =
    let fs = s.frames ++ blank_frame ∷ [] in
    let grown : length fs ≡ suc (length s.frames) =
      omega (arith, length-append s.frames (blank_frame ∷ [])) in
    (
      length s.frames,
      record s { frames = fs },
      [],
      rw w.pool_chain refl,
      record {
        pool_chain = w.pool_chain;
        queue_chain = Chain-append s.frames (blank_frame ∷ []) s.req_queue queue w.queue_chain;
        tail = w.tail;
        owned = λ b. ground (arith, w.owned b, grown);
      },
      λ b l. client_of-cong fs s.frames b b (get_elem?-append_left s.frames (blank_frame ∷ []) b l),
    )
get_frame-IsServer s (a ∷ pool) queue held w =
    let (e, f, at_a, c) = w.pool_chain in
    (
      a,
      record s { req_pool = f.next },
      pool,
      rw (e, at_a) refl,
      record {
        pool_chain = c;
        queue_chain = w.queue_chain;
        tail = w.tail;
        owned = λ b. omega (arith, w.owned b);
      },
      λ b l. refl,
    )

-- On a server where each frame is in one place only (the free list, the queue, or held by a
-- thread), the release of a held frame succeeds and makes it the free list's first frame; the
-- frames stay in one place each.
pub release_frame-IsServer :
    (s : Server) (pool queue held : List ℕ) (a : ℕ)
    → IsServer s pool queue (a ∷ held)
    → (t : Server) × (release_frame a s ≡ ok t) × IsServer t (a ∷ pool) queue held
unfolding release_frame
release_frame-IsServer s pool queue held a w =
    let (f, at_a) = held_frame s pool queue held a w in
    let g : Frame = record f { next = s.req_pool } in
    let kept : IsServer (put s a g) pool queue (a ∷ held) = put-IsServer s pool queue held a g w in
    (
      record (put s a g) { req_pool = some a },
      rw at_a refl,
      record {
        pool_chain = (refl, g, get_elem?-set_self s.frames a g at_a, kept.pool_chain);
        queue_chain = kept.queue_chain;
        tail = kept.tail;
        owned = λ b. omega (arith, kept.owned b);
      },
    )

link-IsServer :
    (s : Server) (pool queue held : List ℕ) (a : ℕ) (g : Frame)
    → IsServer s pool queue (a ∷ held)
    → get_elem? s.frames a ≡ some g
    → g.next ≡ none
    → (need_sig : Bool) × (t : Server) × (link s.req_queue a s ≡ ok (need_sig, t))
      × IsServer (record t { req_tail = some a }) pool (queue ++ a ∷ []) held
      × ((b : ℕ) → client_of t.frames b ≡ client_of s.frames b)
unfolding link
link-IsServer s pool [] held a g w at_a end = (
  true,
  record s { req_queue = some a },
  rw w.queue_chain refl,
  record {
    pool_chain = w.pool_chain;
    queue_chain = (refl, g, at_a, end);
    tail = refl;
    owned = λ b. omega (arith, w.owned b);
  },
  λ b. refl,
)
link-IsServer s pool (x ∷ xs) held a g w at_a end =
    let e = w.queue_chain.0 in
    let once : (b : ℕ) → occurs b (x ∷ xs) ≤ 1 = λ b. ground (arith, w.owned b) in
    let apart : occurs a (x ∷ xs) ≡ 0 = ground (arith, w.owned a, ==_self a) in
    let z = last_of x xs in
    let inside : z < length s.frames = ground (arith, w.owned z, last_of-occurs x xs) in
    let (last, at_z) = get_elem?-some s.frames z inside in
    let pool_apart : occurs z pool ≡ 0 = ground (arith, w.owned z, last_of-occurs x xs) in
    let h : Frame = record last { next = some a } in
    (
      false,
      put s z h,
      rw (e, w.tail, at_z) refl,
      record {
        pool_chain = Chain-set s.frames z h inside s.req_pool pool pool_apart w.pool_chain;
        queue_chain =
            Chain-link s.frames s.req_queue x xs a last g w.queue_chain once at_a end apart at_z;
        tail = ap some (sym (last_of-append x xs a));
        owned = λ b.
            rw (length-set s.frames z h)
              (omega (arith, w.owned b, occurs-append b (x ∷ xs) (a ∷ [])));
      },
      λ b. client_of-set s.frames z b last (some a) at_z,
    )

-- `enqueue_frame` moves a held frame to the queue's end.
pub enqueue_frame-IsServer :
    (s : Server) (pool queue held : List ℕ) (a : ℕ)
    → IsServer s pool queue (a ∷ held)
    → (need_sig : Bool) × (t : Server) × (enqueue_frame a s ≡ ok (need_sig, t))
      × IsServer t pool (queue ++ a ∷ []) held
      × ((b : ℕ) → client_of t.frames b ≡ client_of s.frames b)
unfolding enqueue_frame
enqueue_frame-IsServer s pool queue held a w =
    let (f, at_a) = held_frame s pool queue held a w in
    let g : Frame = record f { next = none } in
    let (need_sig, t, e, v, same) =
      link-IsServer (put s a g) pool queue held a g (put-IsServer s pool queue held a g w)
        (get_elem?-set_self s.frames a g at_a) refl in
    (
      need_sig,
      record t { req_tail = some a },
      rw (at_a, e) refl,
      v,
      λ b. same b ∙ client_of-set s.frames a b f none at_a,
    )
