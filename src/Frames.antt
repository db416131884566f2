-- ===== src/Frames.antt =====
-- Request frames of src/main.c: `struct rframe`, the pool of free frames, the queue of accepted
-- requests, and the counts of threads. A frame's address is its index in the list of frames.
pub mod Chain
pub mod Ownership
pub mod Queue
pub mod Line
pub mod Trace
pub mod Fifo
pub mod Clear
pub mod Idle
pub mod Counts
pub mod Dispatch
pub mod Crew
pub mod Drain
use gusher.Base.{
  ℕ, suc, ◌+◌, ◌-◌, Bytes, Bool, true, false, List, [], ◌∷◌, ◌++◌, leb, if◌then◌else◌, Option, none,
  some, Run, ok, ◌>>=◌, or_fault, get_elem?, set, length,
}

-- `RFRAME`
pub record Frame : Type 0 where
  pub sock : ℕ
  pub ipaddr : Bytes
  pub rport : ℕ
  pub count : ℕ
  pub next : Option ℕ

-- The statics of the threaded server.
pub record Server : Type 0 where
  pub frames : List Frame
  pub req_pool : Option ℕ
  pub req_queue : Option ℕ
  pub req_tail : Option ℕ
  pub tcount : ℕ
  pub nthreads : ℕ
  pub busy_threads : ℕ
  pub max_threads : ℕ

abbrev pub put : Server → ℕ → Frame → Server
put s a f = record s { frames = set s.frames a f }

-- What `malloc` returns holds no value that the program reads.
abbrev pub blank_frame : Frame
blank_frame = record { sock = 0; ipaddr = []; rport = 0; count = 0; next = none }

take_free : Option ℕ → Server → Run (ℕ × Server)
take_free none s = ok (length s.frames, record s { frames = s.frames ++ blank_frame ∷ [] })
take_free (some a) s = do
  frame ← or_fault (get_elem? s.frames a)
  ok (a, record s { req_pool = frame.next })

-- `get_frame`, threaded.
unfoldable pub get_frame : Server → Run (ℕ × Server)
unfolding take_free
get_frame s = take_free s.req_pool s

-- `release_frame`, threaded.
unfoldable pub release_frame : ℕ → Server → Run Server
release_frame a s = do
  frame ← or_fault (get_elem? s.frames a)
  ok (record (put s a (record frame { next = s.req_pool })) { req_pool = some a })

-- Where the new frame is linked: as the queue's head, or behind the last frame. The flag is
-- `need_sig`, which tells whether the waiting threads are signalled.
link : Option ℕ → ℕ → Server → Run (Bool × Server)
link none a s = ok (true, record s { req_queue = some a })
link (some head) a s = do
  tail ← or_fault s.req_tail
  frame ← or_fault (get_elem? s.frames tail)
  ok (false, put s tail (record frame { next = some a }))

-- `enqueue_frame`
unfoldable pub enqueue_frame : ℕ → Server → Run (Bool × Server)
unfolding link
enqueue_frame a s = do
  frame ← or_fault (get_elem? s.frames a)
  (need_sig, s) ← link s.req_queue a (put s a (record frame { next = none }))
  ok (need_sig, record s { req_tail = some a })

dequeue : Option ℕ → Server → Run (Option ℕ × Server)
dequeue none s = ok (none, s)
dequeue (some a) s = do
  frame ← or_fault (get_elem? s.frames a)
  ok (some a, record s { req_queue = frame.next; busy_threads = s.busy_threads + 1 })

-- What `dispatcher` does with the queue while it holds `qmutex`.
unfoldable pub take_frame : Server → Run (Option ℕ × Server)
unfolding dequeue
take_frame s = dequeue s.req_queue s

-- The end of a request in `dispatcher`.
unfoldable pub finish_request : Server → Server
finish_request s = record s { busy_threads = s.busy_threads - 1 }

-- `add_thread`
unfoldable pub add_thread : Server → Server
add_thread s = if leb s.max_threads s.nthreads then s else record s { nthreads = s.nthreads + 1 }

-- A connection that `accept` gave: its socket, the client's address and port.
pub record Client : Type 0 where
  pub fsock : ℕ
  pub address : Bytes
  pub port : ℕ

-- What `process_http` writes to the frame.
unfoldable pub fill_frame : Client → ℕ → Server → Run Server
fill_frame client a s = do
  frame ← or_fault (get_elem? s.frames a)
  let filled = record frame {
    sock = client.fsock;
    ipaddr = client.address;
    rport = client.port;
    count = s.tcount;
  }
  ok (put s a filled)

-- `if (busy_threads >= nthreads) add_thread();`
unfoldable pub start_threads : Server → Server
unfolding add_thread
start_threads s = if leb s.nthreads s.busy_threads then add_thread s else s

-- `process_http`, threaded, on what `accept` gave: a connection, or an error. `get_frame` and
-- `enqueue_frame` each take a mutex of their own and `busy_threads` is read without one; in between
-- no other thread has the frame, and here the whole is one step.
unfoldable pub process_http : Option Client → Server → Run Server
process_http none s = ok s
process_http (some client) s = do
  (a, s) ← get_frame s
  s ← fill_frame client a s
  (need_sig, s) ← enqueue_frame a (start_threads s)
  ok (record s { tcount = s.tcount + 1 })
