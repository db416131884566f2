-- ===== src/Frames/Crew.antt =====
-- What stays true of the dispatchers of src/main.c and of the counts that the server keeps of them.
use gusher.Base.{
  some, ok, ℕ, ◌-◌, ◌≤◌, ◌≡◌, refl, sym, ap, ◌∙◌, List, [], ◌∷◌, ◌++◌, length, length-append, ◌⊎◌,
  inl, inr, arith,
}
use gusher.Frames.{Server, Client, process_http, take_frame, release_frame, finish_request}
use gusher.Frames.Chain.{occurs, occurs-append, client_of}
use gusher.Frames.Counts.{process_http-counts, take_frame-counts, release_frame-counts}
use gusher.Frames.Trace.{
  Step, accepts, takes, releases, finishes, IsWorld, start-IsWorld, Step-IsWorld,
}
use gusher.Frames.Dispatch.{
  Thread, idle, serving, running, Crew, Turn, is_accepted, is_taken, is_released, is_finished,
  is_given_up, ◌⇒*◌, at_first, turns, at_start, spare, spare-idle, busy, busy-append, serves,
  serves-append,
}

-- What holds of the server and its threads: each frame is in one place, a frame that a thread reads
-- from is held, nthreads counts the threads and busy_threads those with a request, and there is a
-- thread as soon as a connection was accepted.
pub record IsCrew (x : Crew) : Type 0 where
  pub world : IsWorld x.world
  pub counted : length x.threads ≡ x.world.server.nthreads
  pub busied : busy x.threads ≡ x.world.server.busy_threads
  pub owned : (a : ℕ) → serves a x.threads ≤ occurs a x.world.held
  pub room : 1 ≤ x.world.server.max_threads
  pub few : x.world.server.nthreads ≤ x.world.server.max_threads
  pub manned : (x.world.accepted ≡ []) ⊎ (1 ≤ x.world.server.nthreads)

at_start-IsCrew : (max_threads : ℕ) → 1 ≤ max_threads → IsCrew (at_start max_threads)
at_start-IsCrew max_threads m = record {
  world = start-IsWorld max_threads;
  counted = refl;
  busied = refl;
  owned = λ a. omega arith;
  room = m;
  few = omega arith;
  manned = inl refl;
}

-- A thread's turn changes what that thread is at, and nothing of the others.
module _ (before behind : List Thread) (old new : Thread) where
  length-swap : length (before ++ new ∷ behind) ≡ length (before ++ old ∷ behind)
  length-swap =
      omega (arith, length-append before (new ∷ behind), length-append before (old ∷ behind))

Turn-Step : (x y : Crew) → Turn x y → Step x.world y.world
Turn-Step x y (is_accepted client t e) = accepts client t e
Turn-Step x y (is_taken before behind a t h e) = takes a t e
Turn-Step x y (is_released before behind first a rest t h l e) = releases first a rest t l e
Turn-Step x y (is_finished before behind h) = finishes
Turn-Step x y (is_given_up before behind a h) = finishes

accepted-IsCrew :
    (x : Crew) (client : Client) (t : Server)
    → process_http (some client) x.world.server ≡ ok t
    → IsCrew x
    → IsCrew (record {
      world = record x.world { server = t; accepted = x.world.accepted ++ client ∷ [] };
      threads = x.threads ++ spare (t.nthreads - x.world.server.nthreads);
    })
accepted-IsCrew x client t e w =
    let (grow, first, few, b, m) = process_http-counts client x.world.server t e in
    let more = t.nthreads - x.world.server.nthreads in
    let (l, none_busy, none_served) = spare-idle more in
    let one : 1 ≤ t.nthreads = first w.room in
    let fewer : t.nthreads ≤ t.max_threads = few w.few in
    record {
      world = Step-IsWorld x.world _ (accepts client t e) w.world;
      counted = omega (arith, w.counted, l, length-append x.threads (spare more));
      busied = omega (arith, w.busied, none_busy, busy-append x.threads (spare more));
      owned = λ a. omega (arith, w.owned a, none_served a, serves-append a x.threads (spare more));
      room = omega (arith, w.room);
      few = fewer;
      manned = inr one;
    }

taken-IsCrew :
    (x : Crew) (before behind : List Thread) (a : ℕ) (t : Server)
    → x.threads ≡ before ++ idle ∷ behind
    → take_frame x.world.server ≡ ok (some a, t)
    → IsCrew x
    → IsCrew (record {
      world = record x.world {
        server = t;
        held = a ∷ x.world.held;
        taken = x.world.taken ++ client_of x.world.server.frames a ∷ [];
      };
      threads = before ++ serving a ∷ behind;
    })
taken-IsCrew x before behind a t h e w =
    let (n, b, m) = take_frame-counts x.world.server a t e in
    record {
      world = Step-IsWorld x.world _ (takes a t e) w.world;
      counted = length-swap before behind idle (serving a) ∙ sym (ap length h) ∙ w.counted ∙ sym n;
      busied = omega (
        arith,
        w.busied,
        ap busy h,
        busy-append before (idle ∷ behind),
        busy-append before (serving a ∷ behind),
      );
      owned = λ c. omega (
        arith,
        w.owned c,
        ap (serves c) h,
        serves-append c before (idle ∷ behind),
        serves-append c before (serving a ∷ behind),
      );
      room = omega (arith, w.room);
      few = omega (arith, w.few);
      manned = elim w.manned [ inl none_yet ↦ inl none_yet | inr one ↦ inr (omega arith) ];
    }

released-IsCrew :
    (x : Crew) (before behind : List Thread) (first : List ℕ) (a : ℕ) (rest : List ℕ) (t : Server)
    → x.threads ≡ before ++ serving a ∷ behind
    → x.world.held ≡ first ++ a ∷ rest
    → release_frame a x.world.server ≡ ok t
    → IsCrew x
    → IsCrew (record {
      world = record x.world { server = t; held = first ++ rest };
      threads = before ++ running ∷ behind;
    })
released-IsCrew x before behind first a rest t h l e w =
    let (n, b, m) = release_frame-counts a x.world.server t e in
    record {
      world = Step-IsWorld x.world _ (releases first a rest t l e) w.world;
      counted =
          length-swap before behind (serving a) running ∙ sym (ap length h) ∙ w.counted ∙ sym n;
      busied = omega (
        arith,
        w.busied,
        ap busy h,
        busy-append before (serving a ∷ behind),
        busy-append before (running ∷ behind),
      );
      owned = λ c. omega (
        arith,
        w.owned c,
        ap (serves c) h,
        ap (occurs c) l,
        occurs-append c first (a ∷ rest),
        occurs-append c first rest,
        serves-append c before (serving a ∷ behind),
        serves-append c before (running ∷ behind),
      );
      room = omega (arith, w.room);
      few = omega (arith, w.few);
      manned = elim w.manned [ inl none_yet ↦ inl none_yet | inr one ↦ inr (omega arith) ];
    }

finished-IsCrew :
    (x : Crew) (before behind : List Thread)
    → x.threads ≡ before ++ running ∷ behind
    → IsCrew x
    → IsCrew (record {
      world = record x.world { server = finish_request x.world.server };
      threads = before ++ idle ∷ behind;
    })
unfolding finish_request
finished-IsCrew x before behind h w = record {
  world = Step-IsWorld x.world _ finishes w.world;
  counted = length-swap before behind running idle ∙ sym (ap length h) ∙ w.counted;
  busied = omega (
    arith,
    w.busied,
    ap busy h,
    busy-append before (running ∷ behind),
    busy-append before (idle ∷ behind),
  );
  owned = λ c. omega (
    arith,
    w.owned c,
    ap (serves c) h,
    serves-append c before (running ∷ behind),
    serves-append c before (idle ∷ behind),
  );
  room = w.room;
  few = w.few;
  manned = w.manned;
}

given_up-IsCrew :
    (x : Crew) (before behind : List Thread) (a : ℕ)
    → x.threads ≡ before ++ serving a ∷ behind
    → IsCrew x
    → IsCrew (record {
      world = record x.world { server = finish_request x.world.server };
      threads = before ++ idle ∷ behind;
    })
unfolding finish_request
given_up-IsCrew x before behind a h w = record {
  world = Step-IsWorld x.world _ finishes w.world;
  counted = length-swap before behind (serving a) idle ∙ sym (ap length h) ∙ w.counted;
  busied = omega (
    arith,
    w.busied,
    ap busy h,
    busy-append before (serving a ∷ behind),
    busy-append before (idle ∷ behind),
  );
  owned = λ c. omega (
    arith,
    w.owned c,
    ap (serves c) h,
    serves-append c before (serving a ∷ behind),
    serves-append c before (idle ∷ behind),
  );
  room = w.room;
  few = w.few;
  manned = w.manned;
}

pub Turn-IsCrew : (x y : Crew) → Turn x y → IsCrew x → IsCrew y
Turn-IsCrew x y (is_accepted client t e) w = accepted-IsCrew x client t e w
Turn-IsCrew x y (is_taken before behind a t h e) w = taken-IsCrew x before behind a t h e w
Turn-IsCrew x y (is_released before behind first a rest t h l e) w =
    released-IsCrew x before behind first a rest t h l e w
Turn-IsCrew x y (is_finished before behind h) w = finished-IsCrew x before behind h w
Turn-IsCrew x y (is_given_up before behind a h) w = given_up-IsCrew x before behind a h w

pub reachable-IsCrew :
    (max_threads : ℕ) (x : Crew) → 1 ≤ max_threads → at_start max_threads ⇒* x → IsCrew x
reachable-IsCrew max_threads x m at_first = at_start-IsCrew max_threads m
reachable-IsCrew max_threads x m (turns {y = y} p turn) =
    Turn-IsCrew y x turn (reachable-IsCrew max_threads y m p)
