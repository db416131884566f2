-- ===== src/Frames/Trace.antt =====
-- The threaded server of src/main.c as a state machine: connections are accepted, dispatchers take
-- frames, and frames are released, in any order.
use gusher.Base.{
  ℕ, ◌≡◌, refl, sym, ap, ◌∙◌, subst, List, [], ◌∷◌, ◌++◌, Option, none, some, ok, ok_injective,
  some_injective, map, append_assoc, arith,
}
use gusher.Frames.{Server, Client, process_http, take_frame, release_frame, finish_request}
use gusher.Frames.Chain.{client_of}
use gusher.Frames.Ownership.{IsServer, release_frame-IsServer}
use gusher.Frames.Line.{held_first, release_frame-waiting, take_frame-none, accept_order}
use gusher.Frames.Queue.{waiting, take_frame-IsServer, process_http-IsServer}

-- The server, the frames that threads hold, and what was accepted and taken so far.
pub record World : Type 0 where
  pub server : Server
  pub held : List ℕ
  pub accepted : List Client
  pub taken : List (Option Client)

-- What one thread does while it holds a mutex, whatever the other threads are at. That a frame is
-- taken by a thread that was started and is free, Frames.Dispatch adds.
pub data Step (x : World) : World → Type 0 where
  accepts :
      (client : Client) (t : Server)
      → process_http (some client) x.server ≡ ok t
      → Step x (record x { server = t; accepted = x.accepted ++ client ∷ [] })
  takes :
      (a : ℕ) (t : Server)
      → take_frame x.server ≡ ok (some a, t)
      → Step x (record x {
        server = t;
        held = a ∷ x.held;
        taken = x.taken ++ client_of x.server.frames a ∷ [];
      })
  releases :
      (before : List ℕ) (a : ℕ) (behind : List ℕ) (t : Server)
      → x.held ≡ before ++ a ∷ behind
      → release_frame a x.server ≡ ok t
      → Step x (record x { server = t; held = before ++ behind })
  finishes : Step x (record x { server = finish_request x.server })

infix 40 ◌⟶*◌
pub data ◌⟶*◌ : World → World → Type 0 where
  here : {x : World} → x ⟶* x
  then : {x y z : World} → x ⟶* y → Step y z → x ⟶* z

-- The server before the first connection.
abbrev pub start : ℕ → World
start max_threads = record {
  server = record {
    frames = [];
    req_pool = none;
    req_queue = none;
    req_tail = none;
    tcount = 0;
    nthreads = 0;
    busy_threads = 0;
    max_threads = max_threads;
  };
  held = [];
  accepted = [];
  taken = [];
}

-- Each frame is in one place, and the clients accepted are those taken and then those that wait.
pub record IsWorld (x : World) : Type 0 where
  pub pool : List ℕ
  pub queue : List ℕ
  pub served : IsServer x.server pool queue x.held
  pub in_order : map some x.accepted ≡ x.taken ++ waiting x.server queue

pub start-IsWorld : (max_threads : ℕ) → IsWorld (start max_threads)
start-IsWorld max_threads = record {
  pool = [];
  queue = [];
  served = record { pool_chain = refl; queue_chain = refl; tail = tt; owned = λ a. ground arith };
  in_order = refl;
}

accepts-IsWorld :
    (x : World) (client : Client) (t : Server)
    → process_http (some client) x.server ≡ ok t
    → IsWorld x
    → IsWorld (record x { server = t; accepted = x.accepted ++ client ∷ [] })
accepts-IsWorld x client t e w =
    let (a, t', rest, run, served, line) =
      process_http-IsServer x.server w.pool w.queue x.held client w.served in
    subst (λ t. IsWorld (record x { server = t; accepted = x.accepted ++ client ∷ [] }))
      (ok_injective (sym run ∙ e))
      (record {
        pool = rest;
        queue = w.queue ++ a ∷ [];
        served = served;
        in_order =
            accept_order x.accepted x.taken (waiting t' (w.queue ++ a ∷ []))
              (waiting x.server w.queue) client w.in_order line;
      })

-- The first frame of the queue can be taken, and its client is the next one served.
pub take_next :
    (x : World) (a : ℕ) (pool queue : List ℕ)
    → IsServer x.server pool (a ∷ queue) x.held
    → map some x.accepted ≡ x.taken ++ waiting x.server (a ∷ queue)
    → (t : Server) × (take_frame x.server ≡ ok (some a, t))
      × IsServer t pool queue (a ∷ x.held)
      × (map some x.accepted ≡ (x.taken ++ client_of x.server.frames a ∷ []) ++ waiting t queue)
take_next x a pool queue w order =
    let (t, run, served, same) = take_frame-IsServer x.server pool queue x.held a w in
    (
      t,
      run,
      served,
      order
          ∙ sym (append_assoc x.taken (client_of x.server.frames a ∷ []) _)
          ∙ ap (λ fs. (x.taken ++ client_of x.server.frames a ∷ []) ++ map (client_of fs) queue)
              (sym same),
    )

takes-IsWorld :
    (x : World) (a : ℕ) (t : Server) (pool queue : List ℕ)
    → take_frame x.server ≡ ok (some a, t)
    → IsServer x.server pool queue x.held
    → map some x.accepted ≡ x.taken ++ waiting x.server queue
    → IsWorld (record x {
      server = t;
      held = a ∷ x.held;
      taken = x.taken ++ client_of x.server.frames a ∷ [];
    })
takes-IsWorld x a t pool [] e w order =
    let nothing : (none, x.server) ≡ (some a, t) =
      ok_injective (sym (take_frame-none x.server w.queue_chain) ∙ e) in
    let gone : none ≡ some a = ap (λ c. c.0) nothing in ground arith
takes-IsWorld x a t pool (b ∷ queue) e w order =
    let (t', run, served, behind) = take_next x b pool queue w order in
    let both : (some b, t') ≡ (some a, t) = ok_injective (sym run ∙ e) in
    let taken_b : IsWorld (record x {
      server = t';
      held = b ∷ x.held;
      taken = x.taken ++ client_of x.server.frames b ∷ [];
    }) =
      record { pool = pool; queue = queue; served = served; in_order = behind } in
    let same_frame : b ≡ a = some_injective (ap (λ c. c.0) both) in
    let same_server : t' ≡ t = ap (λ c. c.1) both in
    subst
      (λ t. IsWorld (record x {
        server = t;
        held = a ∷ x.held;
        taken = x.taken ++ client_of x.server.frames a ∷ [];
      }))
      same_server
      (subst
        (λ b. IsWorld (record x {
          server = t';
          held = b ∷ x.held;
          taken = x.taken ++ client_of x.server.frames b ∷ [];
        }))
        same_frame taken_b)

finishes-IsWorld : (x : World) → IsWorld x → IsWorld (record x { server = finish_request x.server })
unfolding finish_request
finishes-IsWorld x w = record {
  pool = w.pool;
  queue = w.queue;
  served = record {
    pool_chain = w.served.pool_chain;
    queue_chain = w.served.queue_chain;
    tail = w.served.tail;
    owned = w.served.owned;
  };
  in_order = w.in_order;
}

-- What one thread does while it holds a mutex keeps the world.
pub Step-IsWorld : (x y : World) → Step x y → IsWorld x → IsWorld y
Step-IsWorld x y (accepts client t e) w = accepts-IsWorld x client t e w
Step-IsWorld x y (takes a t e) w = takes-IsWorld x a t w.pool w.queue e w.served w.in_order
Step-IsWorld x y (releases before a behind t h e) w =
    let first : IsServer x.server w.pool w.queue (a ∷ (before ++ behind)) =
      held_first x.server w.pool w.queue before a behind
        (subst (IsServer x.server w.pool w.queue) h w.served) in
    let (t', run, served) =
      release_frame-IsServer x.server w.pool w.queue (before ++ behind) a first in
    record {
      pool = a ∷ w.pool;
      queue = w.queue;
      served =
          subst (λ t. IsServer t (a ∷ w.pool) w.queue (before ++ behind))
            (ok_injective (sym run ∙ e)) served;
      in_order =
          w.in_order
          ∙ ap (λ cs. x.taken ++ cs)
              (sym (release_frame-waiting x.server w.pool w.queue (before ++ behind) a t first e));
    }
Step-IsWorld x y finishes w = finishes-IsWorld x w

-- From the server that has just started, after connections accepted, frames taken, held frames
-- released and requests finished, in any order and number: each frame is in one place only (the
-- free list, the queue, or held by a thread), and the clients accepted are, in order, those taken
-- and then those that wait.
pub reachable-IsWorld : (max_threads : ℕ) (x : World) → start max_threads ⟶* x → IsWorld x
reachable-IsWorld max_threads x here = start-IsWorld max_threads
reachable-IsWorld max_threads x (then {y = y} p st) =
    Step-IsWorld y x st (reachable-IsWorld max_threads y p)
