-- ===== src/Frames/Clear.antt =====
-- The end of the server, src/main.c: `clear_queues` frees the frames of the queue and of the pool.
use gusher.Base.{
  ℕ, zero, suc, ◌+◌, ◌<◌, ◌≤◌, ◌≡◌, refl, sym, Bool, true, false, List, [], ◌∷◌, ◌++◌, ◌==◌,
  ==_self, All, get_elem?-lt, Bool-cases, inl, inr, append_assoc, append-nil, if◌then◌else◌, Option,
  none, some, Run, ok, fault, out_of_fuel, ◌>>=◌, or_fault, get_elem?, length, ltb, arith,
}
use gusher.Frames.{Frame, Server}
use gusher.Frames.Chain.{Chain, occurs, occurs-append}
use gusher.Frames.Ownership.{IsServer}
use gusher.Frames.Trace.{World, ◌⟶*◌, start, reachable-IsWorld}

abbrev pub is_freed : ℕ → List ℕ → Bool
is_freed a [] = false
is_freed a (x ∷ freed) = if x == a then true else is_freed a freed

-- The loop: each frame is read for its `next` and then freed. To read a frame that is freed is a
-- fault.
unfoldable pub free_chain : ℕ → List Frame → List ℕ → Option ℕ → Run (List ℕ)
free_chain fuel frames freed none = ok freed
free_chain zero frames freed (some a) = out_of_fuel
free_chain (suc fuel) frames freed (some a) = if is_freed a freed then fault else (do
  frame ← or_fault (get_elem? frames a)
  free_chain fuel frames (freed ++ a ∷ []) frame.next)

-- `clear_queues`, with what it frees, in order.
unfoldable pub clear_queues : Server → Run (List ℕ × Server)
clear_queues s = do
  freed ← free_chain (length s.frames) s.frames [] s.req_queue
  freed ← free_chain (length s.frames) s.frames freed s.req_pool
  ok (freed, record s { req_queue = none; req_pool = none })

occurs-is_freed : (a : ℕ) (freed : List ℕ) → occurs a freed ≡ 0 → is_freed a freed ≡ false
occurs-is_freed a [] h = refl
occurs-is_freed a (x ∷ freed) h = ground (arith, occurs-is_freed a freed)

free_chain-none :
    (fuel : ℕ) (frames : List Frame) (freed : List ℕ) → free_chain fuel frames freed none ≡ ok freed
unfolding free_chain
free_chain-none zero frames freed = refl
free_chain-none (suc fuel) frames freed = refl

free_chain-Chain :
    (xs : List ℕ) (fuel : ℕ) (frames : List Frame) (freed : List ℕ) (p : Option ℕ)
    → length xs ≤ fuel
    → Chain frames p xs
    → ((a : ℕ) → occurs a freed + occurs a xs ≤ 1)
    → free_chain fuel frames freed p ≡ ok (freed ++ xs)
unfolding free_chain
free_chain-Chain [] fuel frames freed p l c once =
    rw (c, append-nil freed) (free_chain-none fuel frames freed)
free_chain-Chain (x ∷ xs) zero frames freed p l c once = absurd (omega arith)
free_chain-Chain (x ∷ xs) (suc fuel) frames freed p l (e, f, at_x, c) once =
    let fresh : is_freed x freed ≡ false =
      occurs-is_freed x freed (ground (arith, once x, ==_self x)) in
    let rest =
      free_chain-Chain xs fuel frames (freed ++ x ∷ []) f.next (omega arith) c
        (λ a. omega (arith, once a, occurs-append a freed (x ∷ []))) in
    rw (e, fresh, at_x, rest, append_assoc) refl

-- How many of the numbers below `n` a list has.
abbrev total : ℕ → List ℕ → ℕ
total zero xs = 0
total (suc n) xs = occurs n xs + total n xs

total-above : (n x : ℕ) (xs : List ℕ) → n ≤ x → total n (x ∷ xs) ≡ total n xs
total-above zero x xs h = refl
total-above (suc n) x xs h =
    let apart : (x == n) ≡ false = ground arith in
    rw (apart) (omega (arith, total-above n x xs (omega arith)))

total-none : (n : ℕ) → total n [] ≡ 0
total-none zero = refl
total-none (suc n) = omega (arith, total-none n)

total-cons : (n x : ℕ) (xs : List ℕ) → x < n → total n (x ∷ xs) ≡ 1 + total n xs
total-cons zero x xs h = absurd (omega arith)
total-cons (suc n) x xs h = elim (Bool-cases (x == n)) [
  | inl q ↦
      let same : x ≡ n = ground arith in rw q (omega (arith, total-above n x xs (omega arith)))
  | inr q ↦ let below : x < n = ground arith in rw q (omega (arith, total-cons n x xs below))
]

total-bound : (n : ℕ) (xs : List ℕ) → ((a : ℕ) → occurs a xs ≤ 1) → total n xs ≤ n
total-bound zero xs once = omega arith
total-bound (suc n) xs once = omega (arith, once n, total-bound n xs once)

length-total : (n : ℕ) (xs : List ℕ) → All (λ a. a < n) xs → length xs ≡ total n xs
length-total n [] h = sym (total-none n)
length-total n (x ∷ xs) h = omega (arith, length-total n xs h.1, total-cons n x xs h.0)

Chain-All :
    (frames : List Frame) (p : Option ℕ) (xs : List ℕ)
    → Chain frames p xs
    → All (λ a. a < length frames) xs
Chain-All frames p [] c = tt
Chain-All frames p (x ∷ xs) (e, f, at_x, c) =
    (get_elem?-lt frames x at_x, Chain-All frames f.next xs c)

-- A list of frames in which none stands twice is no longer than the list of all frames.
Chain-bound :
    (frames : List Frame) (p : Option ℕ) (xs : List ℕ)
    → Chain frames p xs
    → ((a : ℕ) → occurs a xs ≤ 1)
    → length xs ≤ length frames
Chain-bound frames p xs c once = omega (
  arith,
  length-total (length frames) xs (Chain-All frames p xs c),
  total-bound (length frames) xs once,
)

clear_queues-IsServer :
    (s : Server) (pool queue held : List ℕ)
    → IsServer s pool queue held
    → clear_queues s ≡ ok (queue ++ pool, record s { req_queue = none; req_pool = none })
unfolding clear_queues
clear_queues-IsServer s pool queue held w =
    let once : (a : ℕ) → occurs a pool + occurs a queue ≤ 1 = λ a. ground (arith, w.owned a) in
    let first =
      free_chain-Chain queue (length s.frames) s.frames [] s.req_queue
        (Chain-bound s.frames s.req_queue queue w.queue_chain (λ a. omega (arith, once a)))
        w.queue_chain (λ a. omega (arith, once a)) in
    let second =
      free_chain-Chain pool (length s.frames) s.frames queue s.req_pool
        (Chain-bound s.frames s.req_pool pool w.pool_chain (λ a. omega (arith, once a)))
        w.pool_chain (λ a. omega (arith, once a)) in
    rw (clear_queues, first, second) refl

-- In whatever state the threaded server can come to from its start, after connections accepted,
-- frames taken, released and requests finished in any order, clear_queues comes to its end, never
-- reads a frame that it has freed, and empties queue and pool; each frame there is was freed once
-- or is held by a thread, never both.
pub reachable-clears :
    (max_threads : ℕ) (x : World)
    → start max_threads ⟶* x
    → (freed : List ℕ) × (clear_queues x.server
        ≡ ok (freed, record x.server { req_queue = none; req_pool = none }))
      × ((a : ℕ)
          → occurs a freed + occurs a x.held ≡ (if ltb a (length x.server.frames) then 1 else 0))
reachable-clears max_threads x reached =
    let w = reachable-IsWorld max_threads x reached in
    (
      w.queue ++ w.pool,
      clear_queues-IsServer x.server w.pool w.queue x.held w.served,
      λ a. omega (arith, occurs-append a w.queue w.pool, w.served.owned a),
    )
