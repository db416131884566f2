-- ===== src/Serve.antt =====
-- A request from its frame to its answer, src/main.c: `process_request`, which a dispatcher runs
-- under `catch_req`. `release_frame` gives the frame back before the responder is called; no other
-- thread takes it before the answer is sent.
pub mod Answered
use gusher.Base.{
  ℕ, Bool, true, false, Bytes, List, [], ◌∷◌, ◌++◌, map, Option, none, some, Run, ok, fault, thrown,
  out_of_fuel, ◌>>=◌, or_fault, get_elem?,
}
use gusher.CString.{codes}
use gusher.Form.{Fields, Arrival, get_in}
use gusher.Frames.{Frame, Server, release_frame}
use gusher.Handlers.{HandlerEntry}
use gusher.Multipart.{Posted, no_form, fields, parts, post_in}
use gusher.Request.{Stream, Request, Value, form, Payload, decoded, Part, build_request, add_remote}
use gusher.Response.{Wire, Outside, Reply, HeaderValue, send_all, respond, run_responder}

-- `err_msg`
abbrev pub err_msg : Bytes
err_msg =
    codes "HTTP/1.1 500 Internal Server Error"
    ++ (13
        ∷ 10
        ∷ (codes "Content-type: text/plain"
            ++ (13
                ∷ 10
                ∷ 13
                ∷ 10
                ∷ (codes
                      "Gusher application error. Someone will attend to this soon, if they aren't already."
                    ++ 13 ∷ 10 ∷ []))))

-- A field of a query string, as `parse_query` conses it.
abbrev pub field_part : Bytes × Bytes → Part
field_part (name, value) = record { key = some name; value = decoded value }

-- `#f` from `get_in` becomes the empty list.
abbrev pub got_parts : Option Fields → List Part
got_parts none = []
got_parts (some query) = map field_part query

-- `if (query == SCM_BOOL_F) …`
unfoldable pub query_parts : Posted → Request → Run (List Part)
query_parts no_form request = do found ← get_in request; ok (got_parts found)
query_parts (fields query) request = ok (map field_part query)
query_parts (parts query) request = ok query

-- A server, the client's socket as what is written to it, and whether the socket is open.
pub record Served : Type 0 where
  pub server : Server
  pub wire : Wire
  pub is_open : Bool

-- `catch_req`, but for what it logs.
unfoldable pub catch_req : Server → Wire → Served
catch_req s w = record { server = s; wire = send_all err_msg w; is_open = false }

-- What is sent once the responder is done.
unfoldable pub answered :
    (ℕ → Bytes) → Server → Wire → Run (Option (Bytes × HeaderValue) × Reply) → Run Served
answered number_to_string s w (ok (cookie_header, reply)) =
    ok (record {
      server = s;
      wire = respond number_to_string cookie_header reply w;
      is_open = false;
    })
answered number_to_string s w thrown = ok (catch_req s w)
answered number_to_string s w fault = fault
answered number_to_string s w out_of_fuel = out_of_fuel

module _ {H : Type 0} (lib : Outside H) (number_to_string : ℕ → Bytes) where
  -- What follows on the request that was read, or on what was raised before.
  unfoldable pub answer_request :
      List (HandlerEntry H) → ℕ → Server → Wire → Run (Option Request) → Run Served
  answer_request handlers a s w (ok none) = ok (record { server = s; wire = w; is_open = true })
  answer_request handlers a s w (ok (some request)) = do
    s ← release_frame a s
    answered number_to_string s w (run_responder lib handlers request)
  answer_request handlers a s w thrown = ok (catch_req s w)
  answer_request handlers a s w fault = fault
  answer_request handlers a s w out_of_fuel = out_of_fuel

module _ (page_rest : ℕ → ℕ) (arrival : Arrival) (rounds : ℕ) where
  -- What `process_request` does with the lines that it read.
  unfoldable pub with_query : Frame → Option (Request × Stream) → Run (Option Request)
  with_query frame none = ok none
  with_query frame (some (request, sock)) = do
    let request = add_remote frame.ipaddr frame.rport request
    (posted, rest) ← post_in page_rest arrival sock.broken rounds request sock.pending
    query ← query_parts posted request
    ok (some ((codes "query", form query) ∷ request))

  -- `process_request` up to `release_frame`, on the contents of its `buf`; nothing where it returns
  -- early.
  unfoldable pub prepare : Frame → Stream → Bytes → Run (Option Request)
  prepare frame sock buf = do built ← build_request sock buf; with_query frame built

  module _ {H : Type 0} (lib : Outside H) (number_to_string : ℕ → Bytes) where
    -- `scm_c_catch(SCM_BOOL_T, body_req, frame, catch_req, frame, …)`
    unfoldable pub process_request :
        List (HandlerEntry H) → ℕ → Stream → Bytes → Wire → Server → Run Served
    process_request handlers a sock buf w s = do
      frame ← or_fault (get_elem? s.frames a)
      answer_request lib number_to_string handlers a s w (prepare frame sock buf)
