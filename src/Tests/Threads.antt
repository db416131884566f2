-- ===== src/Tests/Threads.antt =====
-- The frames of src/main.c on concrete servers.
use gusher.Base.{◌⊎◌, true, ◌≡◌, refl, [], ◌∷◌, none, some, ok, arith}
use gusher.Frames.{
  Frame, Server, Client, get_frame, fill_frame, start_threads, enqueue_frame, process_http,
  take_frame,
}
use gusher.Frames.Idle.{Idle, waits, enqueues, Reaches, at_first, after_step, Reaches-IsAwake}
use gusher.Frames.Dispatch.{Crew, idle, ◌⇒*◌, at_first, turns, at_start, is_accepted}
use gusher.Frames.Drain.{reachable-drains}
use gusher.Frames.Fifo.{IsSafe, reachable-IsSafe}
use gusher.Frames.Trace.{World, accepts, takes, ◌⟶*◌, here, then, start, IsWorld, reachable-IsWorld}

abbrev first_client : Client
first_client = record { fsock = 7; address = b'1' ∷ []; port = 4000 }

abbrev second_client : Client
second_client = record { fsock = 8; address = b'2' ∷ []; port = 4001 }

abbrev first_frame : Frame
first_frame = record { sock = 7; ipaddr = b'1' ∷ []; rport = 4000; count = 0; next = none }

-- One request waits.
abbrev queued : Server
queued = record {
  frames = first_frame ∷ [];
  req_pool = none;
  req_queue = some 0;
  req_tail = some 0;
  tcount = 1;
  nthreads = 1;
  busy_threads = 0;
  max_threads = 4;
}

-- One request is being run.
abbrev running : Server
running = record queued { req_queue = none; busy_threads = 1 }

-- A connection was accepted by the server that has just started.
abbrev one_accepted : World
one_accepted = record (start 4) { server = queued; accepted = first_client ∷ [] }

-- And a dispatcher took it.
abbrev pub one_taken : World
one_taken = record one_accepted { server = running; held = 0 ∷ []; taken = some first_client ∷ [] }

accepted_runs : process_http (some first_client) (start 4).server ≡ ok queued
unfolding process_http get_frame fill_frame start_threads enqueue_frame
accepted_runs = refl

taken_runs : take_frame queued ≡ ok (some 0, running)
unfolding take_frame
taken_runs = refl

reach_accepted : start 4 ⟶* one_accepted
reach_accepted = then {x = start 4} here (accepts first_client queued accepted_runs)

pub reach_taken : start 4 ⟶* one_taken
reach_taken = then reach_accepted (takes 0 running taken_runs)

reachable-IsWorld_example : IsWorld one_taken
reachable-IsWorld_example = reachable-IsWorld 4 one_taken reach_taken

reachable-IsSafe_example : IsSafe one_taken
reachable-IsSafe_example = reachable-IsSafe 4 one_taken reach_taken

-- And the thread that was started for it.
abbrev one_thread : Crew
one_thread = record { world = one_accepted; threads = idle ∷ [] }

reach_thread : at_start 4 ⇒* one_thread
reach_thread = turns {y = at_start 4} at_first (is_accepted first_client queued accepted_runs)

reachable-drains_example :
    (y : Crew) × (one_thread ⇒* y)
    × (y.world.accepted ≡ first_client ∷ [])
    × (y.world.taken ≡ some first_client ∷ [])
reachable-drains_example = reachable-drains 4 one_thread (omega arith) reach_thread

-- A dispatcher waits; a request comes, and no one waits any more.
abbrev one_frame : Server
one_frame = record (start 4).server { frames = first_frame ∷ [] }

abbrev one_queued : Server
one_queued = record one_frame { req_queue = some 0; req_tail = some 0 }

abbrev none_waits : Idle
none_waits = record { server = one_frame; waiting = [] }

abbrev one_waits : Idle
one_waits = record { server = one_frame; waiting = 0 ∷ [] }

abbrev all_woken : Idle
all_woken = record { server = one_queued; waiting = [] }

nothing_queued : take_frame one_frame ≡ ok (none, one_frame)
unfolding take_frame
nothing_queued = refl

signal_given : enqueue_frame 0 one_frame ≡ ok (true, one_queued)
unfolding enqueue_frame
signal_given = refl

reach_woken : Reaches none_waits all_woken
reach_woken =
    after_step {y = one_waits}
      (after_step {y = none_waits} at_first (waits 0 one_frame nothing_queued))
      (enqueues 0 true one_queued signal_given)

Reaches-IsAwake_example : (all_woken.waiting ≡ []) ⊎ (all_woken.server.req_queue ≡ none)
Reaches-IsAwake_example = Reaches-IsAwake none_waits all_woken reach_woken refl
