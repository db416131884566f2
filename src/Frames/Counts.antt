-- ===== src/Frames/Counts.antt =====
-- The counts of threads that the operations of src/main.c on the frames leave.
use gusher.Base.{
  subst, ℕ, ◌+◌, ◌≤◌, ◌≡◌, refl, ap, Bool, Bool-cases, none, some, ok, ok_injective, bind_inverse,
  or_fault, get_elem?, Option, leb, inl, inr, arith,
}
use gusher.Frames.{
  Server, Client, take_free, get_frame, fill_frame, add_thread, start_threads, link, enqueue_frame,
  dequeue, take_frame, release_frame, process_http,
}

-- The counts `nthreads`, `busy_threads` and `max_threads` are those.
abbrev pub HasCounts : ℕ → ℕ → ℕ → Server → Type 0
HasCounts n b m s = (s.nthreads ≡ n) × (s.busy_threads ≡ b) × (s.max_threads ≡ m)

abbrev Same : Server → Server → Type 0
Same s = HasCounts s.nthreads s.busy_threads s.max_threads

Same-cong : (s t u : Server) → Same s t → t ≡ u → Same s u
Same-cong s t u h e = subst (Same s) e h

take_free-Same :
    (p : Option ℕ) (s : Server) (a : ℕ) (t : Server) → take_free p s ≡ ok (a, t) → Same s t
unfolding take_free
take_free-Same none s a t e = Same-cong s _ t (refl, refl, refl) (ap (λ r. r.1) (ok_injective e))
take_free-Same (some b) s a t e =
    let (f, _, last) = bind_inverse (or_fault (get_elem? s.frames b)) _ (a, t) e in
    Same-cong s _ t (refl, refl, refl) (ap (λ r. r.1) (ok_injective last))

fill_frame-Same : (client : Client) (a : ℕ) (s t : Server) → fill_frame client a s ≡ ok t → Same s t
unfolding fill_frame
fill_frame-Same client a s t e =
    let (f, _, last) = bind_inverse (or_fault (get_elem? s.frames a)) _ t e in
    Same-cong s _ t (refl, refl, refl) (ok_injective last)

link-Same :
    (p : Option ℕ) (a : ℕ) (s : Server) (sig : Bool) (t : Server)
    → link p a s ≡ ok (sig, t)
    → Same s t
unfolding link
link-Same none a s sig t e = Same-cong s _ t (refl, refl, refl) (ap (λ r. r.1) (ok_injective e))
link-Same (some h) a s sig t e =
    let (tail, _, e) = bind_inverse (or_fault s.req_tail) _ (sig, t) e in
    let (f, _, last) = bind_inverse (or_fault (get_elem? s.frames tail)) _ (sig, t) e in
    Same-cong s _ t (refl, refl, refl) (ap (λ r. r.1) (ok_injective last))

enqueue_frame-Same :
    (a : ℕ) (s : Server) (sig : Bool) (t : Server) → enqueue_frame a s ≡ ok (sig, t) → Same s t
unfolding enqueue_frame
enqueue_frame-Same a s sig t e =
    let (f, _, e) = bind_inverse (or_fault (get_elem? s.frames a)) _ (sig, t) e in
    let ((need_sig, linked), l, last) = bind_inverse (link s.req_queue a _) _ (sig, t) e in
    Same-cong s _ t (link-Same s.req_queue a _ need_sig linked l)
      (ap (λ r. r.1) (ok_injective last))

-- A first connection starts a thread, where one thread may run.
start_threads-counts :
    (s : Server)
    → (s.nthreads ≤ (start_threads s).nthreads)
      × (1 ≤ s.max_threads → 1 ≤ (start_threads s).nthreads)
      × (s.nthreads ≤ s.max_threads → (start_threads s).nthreads ≤ s.max_threads)
      × ((start_threads s).busy_threads ≡ s.busy_threads)
      × ((start_threads s).max_threads ≡ s.max_threads)
unfolding start_threads add_thread
start_threads-counts s = elim (Bool-cases (leb s.nthreads s.busy_threads)) [
  | inr q ↦ rw q (omega arith, λ m. ground arith, λ h. h, refl, refl)
  | inl q ↦ elim (Bool-cases (leb s.max_threads s.nthreads)) [
    | inl r ↦ rw (q, r) (omega arith, λ m. ground arith, λ h. h, refl, refl)
    | inr r ↦ rw (q, r) (omega arith, λ m. omega arith, λ h. ground arith, refl, refl)
  ]
]

-- What `process_http` makes of the counts: it starts threads only, and there is one afterwards.
pub process_http-counts :
    (client : Client) (s t : Server)
    → process_http (some client) s ≡ ok t
    → (s.nthreads ≤ t.nthreads)
      × (1 ≤ s.max_threads → 1 ≤ t.nthreads)
      × (s.nthreads ≤ s.max_threads → t.nthreads ≤ t.max_threads)
      × (t.busy_threads ≡ s.busy_threads)
      × (t.max_threads ≡ s.max_threads)
unfolding process_http get_frame
process_http-counts client s t e =
    let ((a, s1), e1, e) = bind_inverse (take_free s.req_pool s) _ t e in
    let (s2, e2, e) = bind_inverse (fill_frame client a s1) _ t e in
    let ((sig, s3), e3, last) = bind_inverse (enqueue_frame a (start_threads s2)) _ t e in
    let (n1, b1, m1) = take_free-Same s.req_pool s a s1 e1 in
    let (n2, b2, m2) = fill_frame-Same client a s1 s2 e2 in
    let (n3, b3, m3) = enqueue_frame-Same a (start_threads s2) sig s3 e3 in
    let (grow, first, few, b4, m4) = start_threads-counts s2 in
    let done = ok_injective last in
    let n5 : s3.nthreads ≡ t.nthreads = ap (λ (s : Server). s.nthreads) done in
    let b5 : s3.busy_threads ≡ t.busy_threads = ap (λ (s : Server). s.busy_threads) done in
    let m5 : s3.max_threads ≡ t.max_threads = ap (λ (s : Server). s.max_threads) done in
    (
      omega arith,
      λ m. let more = first (omega arith) in omega arith,
      λ m. let more = few (omega arith) in omega arith,
      omega arith,
      omega arith,
    )

dequeue-counts :
    (p : Option ℕ) (s : Server) (a : ℕ) (t : Server)
    → dequeue p s ≡ ok (some a, t)
    → HasCounts s.nthreads (s.busy_threads + 1) s.max_threads t
unfolding dequeue
dequeue-counts none s a t e =
    let gone : none ≡ some a = ap (λ r. r.0) (ok_injective e) in absurd (cc)
dequeue-counts (some h) s a t e =
    let (f, _, last) = bind_inverse (or_fault (get_elem? s.frames h)) _ (some a, t) e in
    subst (HasCounts s.nthreads (s.busy_threads + 1) s.max_threads)
      (ap (λ r. r.1) (ok_injective last)) (refl, refl, refl)

pub take_frame-counts :
    (s : Server) (a : ℕ) (t : Server)
    → take_frame s ≡ ok (some a, t)
    → HasCounts s.nthreads (s.busy_threads + 1) s.max_threads t
unfolding take_frame
take_frame-counts s a t e = dequeue-counts s.req_queue s a t e

pub release_frame-counts :
    (a : ℕ) (s t : Server)
    → release_frame a s ≡ ok t
    → HasCounts s.nthreads s.busy_threads s.max_threads t
unfolding release_frame
release_frame-counts a s t e =
    let (f, _, last) = bind_inverse (or_fault (get_elem? s.frames a)) _ t e in
    Same-cong s _ t (refl, refl, refl) (ok_injective last)
