-- ===== src/Frames/Queue.antt =====
-- The queue of requests, src/main.c: `process_http` puts a client's frame at its end, and
-- `dispatcher` takes the first.
use gusher.Base.{
  ℕ, ◌+◌, ◌≤◌, ◌≡◌, refl, ap, ◌∙◌, Bool-cases, false, List, [], ◌∷◌, ◌++◌, map, map-append, ◌==◌,
  leb, Option, some, ok, set, get_elem?-set, get_elem?-set_self, get_elem?-lt, inl, inr, arith,
  ==_self,
}
use gusher.Frames.{Frame, Server, Client, put, add_thread, fill_frame, start_threads, process_http}
use gusher.Frames.{dequeue, take_frame}
use gusher.Frames.Chain.{occurs, client_of, client_of-cong}
use gusher.Frames.Ownership.{
  IsServer, IsTail, held_frame, put-IsServer, get_frame-IsServer, enqueue_frame-IsServer,
}

-- The clients in the queue, the first to be served in front.
abbrev pub waiting : Server → List ℕ → List (Option Client)
waiting s queue = map (client_of s.frames) queue

pub map-same :
    (fs gs : List Frame) (xs : List ℕ)
    → ((b : ℕ) → 1 ≤ occurs b xs → client_of gs b ≡ client_of fs b)
    → map (client_of gs) xs ≡ map (client_of fs) xs
map-same fs gs [] same = refl
map-same fs gs (x ∷ xs) same =
    rw (same x (ground (arith, ==_self x)))
      (ap (◌∷◌ (client_of fs x)) (map-same fs gs xs (λ b l. same b (omega arith))))

rest-IsTail :
    (tail : Option ℕ) (a : ℕ) (queue : List ℕ) → IsTail tail (a ∷ queue) → IsTail tail queue
rest-IsTail tail a [] h = tt
rest-IsTail tail a (x ∷ xs) h = h

-- On a server where each frame is in one place only (the free list, the queue, or held by a
-- thread) and the queue is not empty, a dispatcher takes the frame that was queued first; the
-- frames stay in one place each, the frame is held, and no frame is changed.
pub take_frame-IsServer :
    (s : Server) (pool queue held : List ℕ) (a : ℕ)
    → IsServer s pool (a ∷ queue) held
    → (t : Server) × (take_frame s ≡ ok (some a, t))
      × IsServer t pool queue (a ∷ held)
      × (t.frames ≡ s.frames)
unfolding take_frame dequeue
take_frame-IsServer s pool queue held a w =
    let (e, f, at_a, c) = w.queue_chain in
    (
      record s { req_queue = f.next; busy_threads = s.busy_threads + 1 },
      rw (e, at_a) refl,
      record {
        pool_chain = w.pool_chain;
        queue_chain = c;
        tail = rest-IsTail s.req_tail a queue w.tail;
        owned = λ b. omega (arith, w.owned b);
      },
      refl,
    )

start_threads-IsServer :
    (s : Server) (pool queue held : List ℕ)
    → IsServer s pool queue held
    → IsServer (start_threads s) pool queue held × ((start_threads s).frames ≡ s.frames)
unfolding start_threads add_thread
start_threads-IsServer s pool queue held w =
    let more : IsServer (record s { nthreads = s.nthreads + 1 }) pool queue held = record {
      pool_chain = w.pool_chain;
      queue_chain = w.queue_chain;
      tail = w.tail;
      owned = w.owned;
    } in
    elim (Bool-cases (leb s.nthreads s.busy_threads)) [
      | inr q ↦ rw q (w, refl)
      | inl q ↦ elim (Bool-cases (leb s.max_threads s.nthreads)) [
        | inl r ↦ rw (q, r) (w, refl)
        | inr r ↦ rw (q, r) (more, refl)
      ]
    ]

-- The frame that `process_http` fills carries the client; the other frames are left alone.
fill_frame-IsServer :
    (s : Server) (pool queue held : List ℕ) (client : Client) (a : ℕ)
    → IsServer s pool queue (a ∷ held)
    → (t : Server) × (fill_frame client a s ≡ ok t)
      × IsServer t pool queue (a ∷ held)
      × (client_of t.frames a ≡ some client)
      × ((b : ℕ) → (a == b) ≡ false → client_of t.frames b ≡ client_of s.frames b)
unfolding fill_frame
fill_frame-IsServer s pool queue held client a w =
    let (f, at_a) = held_frame s pool queue held a w in
    let filled : Frame = record f {
      sock = client.fsock;
      ipaddr = client.address;
      rport = client.port;
      count = s.tcount;
    } in
    (
      put s a filled,
      rw at_a refl,
      put-IsServer s pool queue held a filled w,
      rw (client_of, get_elem?-set_self s.frames a filled at_a) refl,
      λ b ne.
          client_of-cong (set s.frames a filled) s.frames b b
            (get_elem?-set s.frames a b filled (get_elem?-lt s.frames a at_a) ∙ rw ne refl),
    )

-- On a server where each frame is in one place only (the free list, the queue, or held by a
-- thread), process_http, threaded, on a connection that accept gave succeeds: the frames stay so,
-- and the queue's clients are those from before and then the new one.
pub process_http-IsServer :
    (s : Server) (pool queue held : List ℕ) (client : Client)
    → IsServer s pool queue held
    → (a : ℕ) × (t : Server) × (rest : List ℕ) × (process_http (some client) s ≡ ok t)
      × IsServer t rest (queue ++ a ∷ []) held
      × (waiting t (queue ++ a ∷ []) ≡ waiting s queue ++ some client ∷ [])
unfolding process_http
process_http-IsServer s pool queue held client w =
    let (a, s1, rest, e1, w1, same1) = get_frame-IsServer s pool queue held w in
    let (s2, e2, w2, at_a, same2) = fill_frame-IsServer s1 rest queue held client a w1 in
    let (w3, e3) = start_threads-IsServer s2 rest queue (a ∷ held) w2 in
    let (sig, t, e4, w4, same4) = enqueue_frame-IsServer (start_threads s2) rest queue held a w3 in
    let kept : (b : ℕ) → client_of t.frames b ≡ client_of s2.frames b =
      λ b. same4 b ∙ ap (λ fs. client_of fs b) e3 in
    (
      a,
      record t { tcount = t.tcount + 1 },
      rest,
      rw (e1, e2, e4) refl,
      record {
        pool_chain = w4.pool_chain;
        queue_chain = w4.queue_chain;
        tail = w4.tail;
        owned = w4.owned;
      },
      map-append (client_of t.frames) queue (a ∷ [])
          ∙ rw
              (
                kept a ∙ at_a,
                map-same s.frames t.frames queue (λ b l.
                    kept b
                    ∙ same2 b (ground (arith, w2.owned b, ==_self a))
                    ∙ same1 b (ground (arith, w.owned b))),
              )
              refl,
    )
