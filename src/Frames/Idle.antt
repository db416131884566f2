-- ===== src/Frames/Idle.antt =====
-- The dispatchers of src/main.c that wait for a request: each waits on its condition variable, and
-- `enqueue_frame` signals all of them where the queue was empty.
use gusher.Base.{
  ℕ, ◌≡◌, refl, sym, ap, ◌∙◌, Bool, true, false, List, [], ◌∷◌, ◌++◌, none, some, Run, ok,
  ok_injective, bind_inverse, subst, ◌>>=◌, or_fault, get_elem?, Option-cases, ◌⊎◌, inl, inr,
  if◌then◌else◌,
}
use gusher.Frames.{
  Server, put, link, enqueue_frame, dequeue, take_frame, release_frame, finish_request,
}

-- The server, and the dispatchers that wait.
pub record Idle : Type 0 where
  pub server : Server
  pub waiting : List ℕ

-- What a thread does while it holds the mutex, and the end of a wait: by a signal, or by its time.
pub data IdleStep (x : Idle) : Idle → Type 0 where
  enqueues :
      (a : ℕ) (need_sig : Bool) (t : Server)
      → enqueue_frame a x.server ≡ ok (need_sig, t)
      → IdleStep x (record { server = t; waiting = if need_sig then [] else x.waiting })
  takes :
      (a : ℕ) (t : Server)
      → take_frame x.server ≡ ok (some a, t)
      → IdleStep x (record x { server = t })
  waits :
      (thread : ℕ) (t : Server)
      → take_frame x.server ≡ ok (none, t)
      → IdleStep x (record { server = t; waiting = thread ∷ x.waiting })
  times_out :
      (before : List ℕ) (thread : ℕ) (behind : List ℕ)
      → x.waiting ≡ before ++ thread ∷ behind
      → IdleStep x (record x { waiting = before ++ behind })
  releases :
      (a : ℕ) (t : Server) → release_frame a x.server ≡ ok t → IdleStep x (record x { server = t })
  finishes : IdleStep x (record x { server = finish_request x.server })

-- The states that come after a state.
pub data Reaches (x : Idle) : Idle → Type 0 where
  at_first : Reaches x x
  after_step : {y z : Idle} → Reaches x y → IdleStep y z → Reaches x z

some-none : {A : Type 0} (a : A) → some a ≡ none → ⊥
some-none a h = cc

-- No dispatcher waits, or no request does.
abbrev pub IsAwake : Idle → Type 0
IsAwake x = (x.waiting ≡ []) ⊎ (x.server.req_queue ≡ none)

abbrev tail_set : ℕ → Bool × Server → Run (Bool × Server)
tail_set a next = ok (next.0, record next.1 { req_tail = some a })

enqueue_frame-signals :
    (a : ℕ) (s : Server) (need_sig : Bool) (t : Server)
    → enqueue_frame a s ≡ ok (need_sig, t)
    → s.req_queue ≡ none
    → need_sig ≡ true
unfolding enqueue_frame link
enqueue_frame-signals a s need_sig t e q =
    let (frame, _, linked) = bind_inverse (or_fault (get_elem? s.frames a)) _ (need_sig, t) e in
    let first =
      subst
        (λ p. (link p a (put s a (record frame { next = none })) >>= tail_set a) ≡ ok (need_sig, t))
        q linked in
    sym (ap (λ r. r.0) (ok_injective first))

take_frame-empty : (s : Server) (t : Server) → take_frame s ≡ ok (none, t) → t.req_queue ≡ none
unfolding take_frame dequeue
take_frame-empty s t e = elim (Option-cases s.req_queue) [
  | inl q ↦
      let same : ok (none, s) ≡ ok (none, t) = subst (λ p. dequeue p s ≡ ok (none, t)) q e in
      sym (ap (λ r. r.1.req_queue) (ok_injective same)) ∙ q
  | inr (h, q) ↦
      let (frame, _, f) =
        bind_inverse (or_fault (get_elem? s.frames h)) _ (none, t)
          (subst (λ p. dequeue p s ≡ ok (none, t)) q e) in
      absurd (some-none h (ap (λ r. r.0) (ok_injective f)))
]

take_frame-busy :
    (s : Server) (a : ℕ) (t : Server) → take_frame s ≡ ok (some a, t) → s.req_queue ≡ none → ⊥
unfolding take_frame dequeue
take_frame-busy s a t e q =
    let same : ok (none, s) ≡ ok (some a, t) = subst (λ p. dequeue p s ≡ ok (some a, t)) q e in
    some-none a (sym (ap (λ r. r.0) (ok_injective same)))

release_frame-queue : (a : ℕ) (s t : Server) → release_frame a s ≡ ok t → t.req_queue ≡ s.req_queue
unfolding release_frame
release_frame-queue a s t e =
    let (frame, _, f) = bind_inverse (or_fault (get_elem? s.frames a)) _ t e in
    sym (ap (λ r. r.req_queue) (ok_injective f))

none_left : (before behind : List ℕ) (x : ℕ) → before ++ x ∷ behind ≡ [] → ⊥
none_left [] behind x h = cc
none_left (b ∷ before) behind x h = cc

same_waiting :
    (need_sig : Bool) (waiting : List ℕ) → waiting ≡ [] → (if need_sig then [] else waiting) ≡ []
same_waiting true waiting h = refl
same_waiting false waiting h = h

IdleStep-IsAwake : (x y : Idle) → IdleStep x y → IsAwake x → IsAwake y
unfolding finish_request
IdleStep-IsAwake x y (enqueues a need_sig t e) (inl w) = inl (same_waiting need_sig x.waiting w)
IdleStep-IsAwake x y (enqueues a need_sig t e) (inr q) =
    inl (rw (enqueue_frame-signals a x.server need_sig t e q) refl)
IdleStep-IsAwake x y (takes a t e) (inl w) = inl w
IdleStep-IsAwake x y (takes a t e) (inr q) = absurd (take_frame-busy x.server a t e q)
IdleStep-IsAwake x y (waits thread t e) w = inr (take_frame-empty x.server t e)
IdleStep-IsAwake x y (times_out before thread behind e) (inl w) =
    absurd (none_left before behind thread (sym e ∙ w))
IdleStep-IsAwake x y (times_out before thread behind e) (inr q) = inr q
IdleStep-IsAwake x y (releases a t e) (inl w) = inl w
IdleStep-IsAwake x y (releases a t e) (inr q) = inr (release_frame-queue a x.server t e ∙ q)
IdleStep-IsAwake x y finishes w = w

-- From a state in which no dispatcher waits, after frames queued, taken and released, requests
-- finished, dispatchers that find the queue empty and wait, and waits that end by their time, in
-- any order and number: no dispatcher waits on its condition variable, or no request is queued.
pub Reaches-IsAwake :
    (x y : Idle) → Reaches x y → x.waiting ≡ [] → (y.waiting ≡ []) ⊎ (y.server.req_queue ≡ none)
Reaches-IsAwake x y at_first w = inl w
Reaches-IsAwake x y (after_step {y = mid} reached step) w =
    IdleStep-IsAwake mid y step (Reaches-IsAwake x mid reached w)
