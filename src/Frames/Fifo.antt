-- ===== src/Frames/Fifo.antt =====
-- The operations of src/main.c on the frames go through in every state of the threaded server.
use gusher.Base.{ℕ, ◌≡◌, subst, List, [], ◌∷◌, ◌++◌, Option, some, ok}
use gusher.Frames.{Server, Client, process_http, take_frame, release_frame}
use gusher.Frames.Ownership.{IsServer, release_frame-IsServer}
use gusher.Frames.Queue.{take_frame-IsServer, process_http-IsServer}
use gusher.Frames.Line.{held_first, take_frame-none}
use gusher.Frames.Trace.{World, ◌⟶*◌, start, IsWorld, reachable-IsWorld}

-- The three operations on the frames go through.
abbrev pub IsSafe : World → Type 0
IsSafe x =
    ((client : Client) → (t : Server) × (process_http (some client) x.server ≡ ok t))
    × ((a : Option ℕ) × (t : Server) × (take_frame x.server ≡ ok (a, t)))
    × ((before : List ℕ) (a : ℕ) (behind : List ℕ)
        → x.held ≡ before ++ a ∷ behind
        → (t : Server) × (release_frame a x.server ≡ ok t))

take_frame-total :
    (s : Server) (pool queue held : List ℕ)
    → IsServer s pool queue held
    → (a : Option ℕ) × (t : Server) × (take_frame s ≡ ok (a, t))
take_frame-total s pool [] held w = (_, s, take_frame-none s w.queue_chain)
take_frame-total s pool (a ∷ queue) held w =
    let (t, run, rest, same) = take_frame-IsServer s pool queue held a w in (some a, t, run)

IsWorld-IsSafe : (x : World) → IsWorld x → IsSafe x
IsWorld-IsSafe x w = (
  λ client.
      let (a, t, rest, run, more, line) =
        process_http-IsServer x.server w.pool w.queue x.held client w.served in
      (t, run),
  take_frame-total x.server w.pool w.queue x.held w.served,
  λ before a behind h.
      let first : IsServer x.server w.pool w.queue (a ∷ (before ++ behind)) =
        held_first x.server w.pool w.queue before a behind
          (subst (IsServer x.server w.pool w.queue) h w.served) in
      let (t, run, more) =
        release_frame-IsServer x.server w.pool w.queue (before ++ behind) a first in
      (t, run),
)

-- In whatever state the threaded server can come to from its start by connections accepted, frames
-- taken, held frames released and requests finished, none of its operations on the frames reads a
-- frame that is not there: process_http on any connection, take_frame, and release_frame of a
-- frame that a thread holds all go through.
pub reachable-IsSafe : (max_threads : ℕ) (x : World) → start max_threads ⟶* x → IsSafe x
reachable-IsSafe max_threads x p = IsWorld-IsSafe x (reachable-IsWorld max_threads x p)
