-- ===== src/Frames/Dispatch.antt =====
-- The dispatchers of src/main.c, each with what it is at: a frame is taken by a thread that has been
-- started and has nothing to do, and only a request that runs ends.
use gusher.Base.{
  ℕ, zero, suc, ◌+◌, ◌-◌, ◌≡◌, refl, ap, List, [], ◌∷◌, ◌++◌, length, some, ok, ◌==◌, if◌then◌else◌,
  arith,
}
use gusher.Frames.{Server, Client, process_http, take_frame, release_frame, finish_request}
use gusher.Frames.Chain.{client_of}
use gusher.Frames.Trace.{World, start}

-- A dispatcher waits for a request, reads one from its frame, or runs one whose frame it has
-- released.
pub data Thread : Type 0 where
  idle : Thread
  serving : ℕ → Thread
  running : Thread

-- The server, and the threads that it has started.
pub record Crew : Type 0 where
  pub world : World
  pub threads : List Thread

-- That many new threads.
abbrev pub spare : ℕ → List Thread
spare zero = []
spare (suc n) = idle ∷ spare n

-- What `process_http` does, or a thread, from what it is at. A request that is given
-- up, by the return of `process_request` for a peer that has closed or by an exception before the
-- release, ends without `release_frame`.
pub data Turn (x : Crew) : Crew → Type 0 where
  is_accepted :
      (client : Client) (t : Server)
      → process_http (some client) x.world.server ≡ ok t
      → Turn x (record {
        world = record x.world { server = t; accepted = x.world.accepted ++ client ∷ [] };
        threads = x.threads ++ spare (t.nthreads - x.world.server.nthreads);
      })
  is_taken :
      (before behind : List Thread) (a : ℕ) (t : Server)
      → x.threads ≡ before ++ idle ∷ behind
      → take_frame x.world.server ≡ ok (some a, t)
      → Turn x (record {
        world = record x.world {
          server = t;
          held = a ∷ x.world.held;
          taken = x.world.taken ++ client_of x.world.server.frames a ∷ [];
        };
        threads = before ++ serving a ∷ behind;
      })
  is_released :
      (before behind : List Thread) (first : List ℕ) (a : ℕ) (rest : List ℕ) (t : Server)
      → x.threads ≡ before ++ serving a ∷ behind
      → x.world.held ≡ first ++ a ∷ rest
      → release_frame a x.world.server ≡ ok t
      → Turn x (record {
        world = record x.world { server = t; held = first ++ rest };
        threads = before ++ running ∷ behind;
      })
  is_finished :
      (before behind : List Thread)
      → x.threads ≡ before ++ running ∷ behind
      → Turn x (record {
        world = record x.world { server = finish_request x.world.server };
        threads = before ++ idle ∷ behind;
      })
  is_given_up :
      (before behind : List Thread) (a : ℕ)
      → x.threads ≡ before ++ serving a ∷ behind
      → Turn x (record {
        world = record x.world { server = finish_request x.world.server };
        threads = before ++ idle ∷ behind;
      })

infix 40 ◌⇒*◌
pub data ◌⇒*◌ (x : Crew) : Crew → Type 0 where
  at_first : x ⇒* x
  turns : {y z : Crew} → x ⇒* y → Turn y z → x ⇒* z

-- The server before the first connection has no thread.
abbrev pub at_start : ℕ → Crew
at_start max_threads = record { world = start max_threads; threads = [] }

-- How many threads have a request, and how many read one from the frame `a`.
abbrev pub busy : List Thread → ℕ
busy [] = 0
busy (idle ∷ threads) = busy threads
busy (serving a ∷ threads) = suc (busy threads)
busy (running ∷ threads) = suc (busy threads)

abbrev pub serves : ℕ → List Thread → ℕ
serves a [] = 0
serves a (serving b ∷ threads) = (if b == a then 1 else 0) + serves a threads
serves a (idle ∷ threads) = serves a threads
serves a (running ∷ threads) = serves a threads

pub busy-append : (xs ys : List Thread) → busy (xs ++ ys) ≡ busy xs + busy ys
busy-append [] ys = omega arith
busy-append (idle ∷ xs) ys = busy-append xs ys
busy-append (serving a ∷ xs) ys = omega (arith, busy-append xs ys)
busy-append (running ∷ xs) ys = omega (arith, busy-append xs ys)

pub serves-append : (a : ℕ) (xs ys : List Thread) → serves a (xs ++ ys) ≡ serves a xs + serves a ys
serves-append a [] ys = omega arith
serves-append a (idle ∷ xs) ys = serves-append a xs ys
serves-append a (serving b ∷ xs) ys = omega (arith, serves-append a xs ys)
serves-append a (running ∷ xs) ys = serves-append a xs ys

pub spare-idle :
    (n : ℕ) → (length (spare n) ≡ n) × (busy (spare n) ≡ 0) × ((a : ℕ) → serves a (spare n) ≡ 0)
spare-idle zero = (refl, refl, λ a. refl)
spare-idle (suc n) = let (l, b, s) = spare-idle n in (ap suc l, b, s)
