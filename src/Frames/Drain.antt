-- ===== src/Frames/Drain.antt =====
-- Every connection that the threaded server of src/main.c has accepted can be served, by the threads
-- that it has started.
use gusher.Base.{
  ℕ, zero, suc, ◌+◌, ◌≤◌, ◌≡◌, refl, sym, ap, ◌∙◌, subst, List, [], ◌∷◌, ◌++◌, length,
  length-append, Option, some, map, append-nil, ◌==◌, inl, inr, arith, ==_self, ==_iff, Bool-cases,
  length-map,
}
use gusher.Frames.{Client, finish_request}
use gusher.Frames.Chain.{occurs, client_of}
use gusher.Frames.Line.{held_first}
use gusher.Frames.Ownership.{IsServer, release_frame-IsServer}
use gusher.Frames.Queue.{waiting}
use gusher.Frames.Trace.{take_next}
use gusher.Frames.Dispatch.{
  Thread, idle, serving, running, Crew, Turn, is_taken, is_released, is_finished, ◌⇒*◌, at_first,
  turns, at_start, serves,
}
use gusher.Frames.Crew.{IsCrew, Turn-IsCrew, reachable-IsCrew}

and_then : {x y z : Crew} → x ⇒* y → y ⇒* z → x ⇒* z
and_then p at_first = p
and_then p (turns q turn) = turns (and_then p q) turn

-- An address that occurs in a list stands somewhere in it.
occurs-place :
    (a : ℕ) (xs : List ℕ)
    → 1 ≤ occurs a xs
    → (first : List ℕ) × (rest : List ℕ) × (xs ≡ first ++ a ∷ rest)
occurs-place a [] l = absurd (omega (arith, l))
occurs-place a (x ∷ xs) l = elim (Bool-cases (x == a)) [
  | inl q ↦ ([], xs, ap (λ b. b ∷ xs) ((==_iff x a).0 q))
  | inr q ↦
      let (first, rest, e) = occurs-place a xs (ground (arith, l)) in
      (x ∷ first, rest, ap (◌∷◌ x) e)
]

-- The first thread can come to its rest: it releases its frame, and its request ends.
abbrev Rested : Crew → List Thread → Type 0
Rested x threads =
    (y : Crew) × (x ⇒* y)
    × (y.threads ≡ idle ∷ threads)
    × IsCrew y
    × (y.world.accepted ≡ x.world.accepted)
    × (y.world.taken ≡ x.world.taken)

rest_running :
    (x : Crew) (threads : List Thread) → x.threads ≡ running ∷ threads → IsCrew x → Rested x threads
rest_running x threads h w =
    let y : Crew = record {
      world = record x.world { server = finish_request x.world.server };
      threads = idle ∷ threads;
    } in
    let turn : Turn x y = is_finished [] threads h in
    (y, turns at_first turn, refl, Turn-IsCrew x y turn w, refl, refl)

rest_serving :
    (x : Crew) (a : ℕ) (threads : List Thread)
    → x.threads ≡ serving a ∷ threads
    → IsCrew x
    → Rested x threads
rest_serving x a threads h w =
    let read : 1 ≤ serves a x.threads = ground (arith, ap (serves a) h, ==_self a) in
    let (first, rest, l) = occurs-place a x.world.held (omega (arith, w.owned a)) in
    let served =
      held_first x.world.server w.world.pool w.world.queue first a rest
        (subst (IsServer x.world.server w.world.pool w.world.queue) l w.world.served) in
    let (t, run, more) =
      release_frame-IsServer x.world.server w.world.pool w.world.queue (first ++ rest) a served in
    let y : Crew = record {
      world = record x.world { server = t; held = first ++ rest };
      threads = running ∷ threads;
    } in
    let turn : Turn x y = is_released [] threads first a rest t h l run in
    let (z, p, rested, good, accepted, taken) =
      rest_running y threads refl (Turn-IsCrew x y turn w) in
    (z, and_then (turns at_first turn) p, rested, good, accepted, taken)

rest_first :
    (x : Crew) (thread : Thread) (threads : List Thread)
    → x.threads ≡ thread ∷ threads
    → IsCrew x
    → Rested x threads
rest_first x idle threads h w = (x, at_first, h, w, refl, refl)
rest_first x (serving a) threads h w = rest_serving x a threads h w
rest_first x running threads h w = rest_running x threads h w

cons_of {ℓ} :
    {A : Type ℓ} (xs : List A) → 1 ≤ length xs → (x : A) × (rest : List A) × (xs ≡ x ∷ rest)
cons_of [] l = absurd (omega (arith, l))
cons_of (x ∷ rest) l = (x, rest, refl)

nil_of {ℓ} : {A : Type ℓ} (xs : List A) → length xs ≡ 0 → xs ≡ []
nil_of [] l = refl
nil_of (x ∷ rest) l = absurd (omega (arith, l))

-- There is a thread where a connection was accepted.
has_thread :
    (x : Crew) (n : ℕ)
    → IsCrew x
    → length x.world.accepted ≡ suc n
    → (thread : Thread) × (threads : List Thread) × (x.threads ≡ thread ∷ threads)
has_thread x n w l = elim w.manned [
  | inl nothing ↦
      let gone : length x.world.accepted ≡ 0 = ap length nothing in absurd (omega (arith, gone, l))
  | inr one ↦ cons_of x.threads (omega (arith, w.counted, one))
]

-- How many frames wait.
length-waiting :
    (x : Crew) (w : IsCrew x)
    → length x.world.accepted ≡ length x.world.taken + length w.world.queue
length-waiting x w = omega (
  arith,
  ap length w.world.in_order,
  length-map (λ c. some c) x.world.accepted,
  length-append x.world.taken (waiting x.world.server w.world.queue),
  length-map (client_of x.world.server.frames) w.world.queue,
)

-- A thread at rest takes the frame that was queued first.
take_first :
    (x : Crew) (threads : List Thread) (n : ℕ)
    → x.threads ≡ idle ∷ threads
    → IsCrew x
    → length x.world.accepted ≡ length x.world.taken + suc n
    → (y : Crew) × (x ⇒* y)
      × IsCrew y
      × (y.world.accepted ≡ x.world.accepted)
      × (length y.world.taken ≡ suc (length x.world.taken))
take_first x threads n h w l =
    let (a, queue, q) = cons_of w.world.queue (omega (arith, l, length-waiting x w)) in
    let served =
      subst (λ k. IsServer x.world.server w.world.pool k x.world.held) q w.world.served in
    let order =
      subst (λ k. map some x.world.accepted ≡ x.world.taken ++ waiting x.world.server k) q
        w.world.in_order in
    let (t, run, more, behind) = take_next x.world a w.world.pool queue served order in
    let next : Option Client = client_of x.world.server.frames a in
    let y : Crew = record {
      world = record x.world {
        server = t;
        held = a ∷ x.world.held;
        taken = x.world.taken ++ next ∷ [];
      };
      threads = serving a ∷ threads;
    } in
    let turn : Turn x y = is_taken [] threads a t h run in
    (
      y,
      turns at_first turn,
      Turn-IsCrew x y turn w,
      refl,
      omega (arith, length-append x.world.taken (next ∷ [])),
    )

drain :
    (n : ℕ) (x : Crew)
    → IsCrew x
    → length x.world.accepted ≡ length x.world.taken + n
    → (y : Crew) × (x ⇒* y)
      × (y.world.accepted ≡ x.world.accepted)
      × (y.world.taken ≡ map some x.world.accepted)
drain zero x w l =
    let empty = nil_of w.world.queue (omega (arith, l, length-waiting x w)) in
    (
      x,
      at_first,
      refl,
      sym (
          w.world.in_order
          ∙ ap (λ k. x.world.taken ++ waiting x.world.server k) empty
          ∙ append-nil x.world.taken),
    )
drain (suc n) x w l =
    let (thread, threads, h) = has_thread x (length x.world.taken + n) w (omega (arith, l)) in
    let (y, p, idle_first, good, accepted, taken) = rest_first x thread threads h w in
    let (z, q, better, same, one) =
      take_first y threads n idle_first good
        (omega (arith, l, ap length accepted, ap length taken)) in
    let (end, r, all, order) =
      drain n z better
        (omega (arith, l, one, ap length accepted, ap length taken, ap length same)) in
    (end, and_then p (and_then q r), all ∙ same ∙ accepted, order ∙ ap (map some) (same ∙ accepted))

-- On a server that may run at least one thread, from whatever state it can come to from its start,
-- without a thread, by connections accepted, frames taken by threads that have been started and
-- have no request, frames released by the thread that reads from them, and requests that end with
-- their frame released or are given up, in any order and number: there are such turns after which,
-- with no other connection accepted, every connection has been taken, in the order in which they
-- were accepted.
pub reachable-drains :
    (max_threads : ℕ) (x : Crew)
    → 1 ≤ max_threads
    → at_start max_threads ⇒* x
    → (y : Crew) × (x ⇒* y)
      × (y.world.accepted ≡ x.world.accepted)
      × (y.world.taken ≡ map some x.world.accepted)
reachable-drains max_threads x m p =
    let w = reachable-IsCrew max_threads x m p in
    drain (length w.world.queue) x w (length-waiting x w)
