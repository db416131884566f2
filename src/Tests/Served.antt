-- ===== src/Tests/Served.antt =====
-- A whole request, src/main.c, on a concrete connection.
use gusher.Base.{ℕ, ◌≡◌, refl, Bytes, List, [], ◌∷◌, ◌++◌, false, none, some, ok, thrown, arith}
use gusher.CString.{codes, strcmp_zero, strncmp_zero}
use gusher.Form.{assq_ref, to_locale_string}
use gusher.Frames.{Frame, Server}
use gusher.Frames.Ownership.{IsServer}
use gusher.Handlers.{HandlerEntry, find_handler}
use gusher.Query.Parse.{QueryText, field, last}
use gusher.Query.Decode.{plain, done}
use gusher.Request.{Stream}
use gusher.Request.Start.{Target}
use gusher.Response.{
  Wire, Outside, run_responder, request_handler, session_cookie, put_uuid, send_all,
}
use gusher.Serve.{process_request, err_msg}
use gusher.Serve.Answered.{process_request-IsAnswer}

abbrev target : Target
target = record { path = codes "/a"; query = some (codes "b=c") }

-- `GET /a?b=c H`, without headers.
abbrev sock : Stream
sock = record { pending = codes "GET /a?b=c H" ++ 13 ∷ 10 ∷ 13 ∷ 10 ∷ []; broken = false }

-- A line buffer of 16 bytes.
abbrev buffer : Bytes
buffer = codes "????????????????"

abbrev frame : Frame
frame = record { sock = 7; ipaddr = b'1' ∷ []; rport = 4000; count = 0; next = none }

-- A thread runs the request of the one frame.
abbrev server : Server
server = record {
  frames = frame ∷ [];
  req_pool = none;
  req_queue = none;
  req_tail = some 0;
  tcount = 1;
  nthreads = 1;
  busy_threads = 1;
  max_threads = 4;
}

server-IsServer : IsServer server [] [] (0 ∷ [])
server-IsServer = record {
  pool_chain = refl;
  queue_chain = refl;
  tail = tt;
  owned = λ a. ground arith;
}

-- A responder that raises an exception.
abbrev lib : Outside ℕ
lib = record { cookie_pat = λ buf. none; uuid_generate = []; call = λ h request. thrown }

abbrev handlers : List (HandlerEntry ℕ)
handlers = record { path = codes "/"; handler = 1 } ∷ []

abbrev wire : Wire
wire = record { sent = []; takes = some 500 ∷ [] }

query : QueryText (codes "b=c") ((codes "b", codes "c") ∷ [])
query =
    last
      (field (codes "b") (codes "c") (codes "c") refl refl (omega arith) (omega arith)
        (plain (omega arith) (omega arith) (omega arith) done))
      (omega arith)

process_request-IsAnswer_example :
    (after : Server) × (sent : Wire) × (process_request
        (λ n. 0)
        (λ n. 0)
        0
        lib
        (λ n. [])
        handlers
        0
        sock
        buffer
        wire
        server
      ≡ ok (record { server = after; wire = sent; is_open = false }))
    × IsServer after (0 ∷ []) [] []
    × (sent ≡ send_all err_msg wire)
unfolding run_responder request_handler session_cookie assq_ref strcmp_zero to_locale_string
    find_handler strncmp_zero put_uuid
process_request-IsAnswer_example =
    process_request-IsAnswer (λ n. 0) (λ n. 0) 0 lib (λ n. []) handlers server [] [] [] 0 frame sock
      buffer wire (b'G') (codes "ET") target (codes "H") [] [] server-IsServer refl refl
      (omega arith) (record { url_text = omega arith; path_text = omega arith })
      (omega arith, ground arith) tt refl (refl, refl) query tt
