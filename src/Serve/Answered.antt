-- ===== src/Serve/Answered.antt =====
-- What a client gets from `process_request` of src/main.c, and what becomes of its frame.
use gusher.Base.{
  ℕ, ◌≡◌, refl, ap, ◌∙◌, false, Bool, Bytes, map, reverse, length, ◌==◌, fault, out_of_fuel, List,
  ◌∷◌, ◌++◌, Option, none, some, Run, ok, thrown, ◌>>=◌, get_elem?,
}
use gusher.Buffer.Border.{Avoids}
use gusher.CString.{codes, strcmp_zero}
use gusher.Form.{Arrival, assq_ref, get_in}
use gusher.Form.Body.{get_in-QueryText}
use gusher.Form.Lookup.{last_named, assq_ref-with_headers}
use gusher.Query.Parse.{QueryText}
use gusher.Frames.{Frame, Server}
use gusher.Frames.Ownership.{IsServer, release_frame-IsServer}
use gusher.Handlers.{HandlerEntry}
use gusher.Request.{Stream, Request, symbol, string, integer, form, add_remote}
use gusher.Request.Start.{Target, IsTarget, started, query_or_empty}
use gusher.Request.Header.{Header}
use gusher.Request.Whole.{
  with_headers, headers_bytes, Fits, AllHeaders, request_line, build_request-whole,
}
use gusher.Multipart.{no_form, post_in}
use gusher.Response.{Wire, Outside, Reply, HeaderValue, send_all, respond, run_responder}
use gusher.Serve.{
  err_msg, catch_req, field_part, query_parts, with_query, prepare, answered, answer_request,
  process_request,
}

-- What is sent for what the responder gave, or raised.
abbrev pub IsAnswer :
    (ℕ → Bytes) → Run (Option (Bytes × HeaderValue) × Reply) → Wire → Wire → Type 0
IsAnswer number_to_string (ok (cookie_header, reply)) w sent =
    sent ≡ respond number_to_string cookie_header reply w
IsAnswer number_to_string thrown w sent = sent ≡ send_all err_msg w
IsAnswer number_to_string _ w sent = ⊥

-- The responder comes back, with a reply or an exception.
abbrev pub Returns : Run (Option (Bytes × HeaderValue) × Reply) → Type 0
Returns (ok r) = Unit
Returns thrown = Unit
Returns _ = ⊥

answered-IsAnswer :
    (number_to_string : ℕ → Bytes) (s : Server) (w : Wire)
    → (r : Run (Option (Bytes × HeaderValue) × Reply)) → Returns r
    → (sent : Wire) × (answered number_to_string s w r
        ≡ ok (record { server = s; wire = sent; is_open = false }))
      × IsAnswer number_to_string r w sent
unfolding answered catch_req
answered-IsAnswer number_to_string s w (ok (cookie_header, reply)) h = (_, refl, refl)
answered-IsAnswer number_to_string s w thrown h = (_, refl, refl)
answered-IsAnswer number_to_string s w fault h = elim h [ ]
answered-IsAnswer number_to_string s w out_of_fuel h = elim h [ ]

-- The request that a responder is called with.
abbrev pub asked : Frame → ℕ → Target → List Header → List (Bytes × Bytes) → Request
asked frame c t hs fs =
    (codes "query", form (map field_part (reverse fs)))
    ∷ (codes "remote-port", integer frame.rport)
    ∷ (codes "remote-host", string frame.ipaddr)
    ∷ with_headers hs (started c t)

-- Headers that hide neither the method nor the query string.
abbrev pub HidesNothing : List Header → Type 0
HidesNothing hs =
    (last_named (codes "method") hs ≡ none) × (last_named (codes "query-string") hs ≡ none)

post_in-get :
    (page_rest : ℕ → ℕ) (arrival : Arrival) (broken : Bool) (rounds : ℕ) (request : Request)
    → (pending : Bytes) → assq_ref request (codes "method") ≡ some (symbol (codes "get"))
    → post_in page_rest arrival broken rounds request pending ≡ ok (no_form, pending)
unfolding post_in strcmp_zero
post_in-get page_rest arrival broken rounds request pending m = rw (post_in, m) refl

with_query-get :
    (page_rest : ℕ → ℕ) (arrival : Arrival) (rounds : ℕ) (frame : Frame) (request : Request)
    → (sock : Stream) (query : List (Bytes × Bytes))
    → assq_ref (add_remote frame.ipaddr frame.rport request) (codes "method")
      ≡ some (symbol (codes "get"))
    → get_in (add_remote frame.ipaddr frame.rport request) ≡ ok (some query)
    → with_query page_rest arrival rounds frame (some (request, sock))
      ≡ ok (
          some (
            (codes "query", form (map field_part query))
            ∷ add_remote frame.ipaddr frame.rport request))
unfolding with_query query_parts
with_query-get page_rest arrival rounds frame request sock query m g =
    rw (with_query, post_in-get page_rest arrival sock.broken rounds _ sock.pending m, g) refl

prepare-get :
    (page_rest : ℕ → ℕ) (arrival : Arrival) (rounds : ℕ) (frame : Frame) (sock : Stream)
    (buf : Bytes)
    → (c : ℕ) (word : Bytes) (t : Target) (version : Bytes) (hs : List Header) (body : Bytes)
    → {fs : List (Bytes × Bytes)}
    → sock.pending ≡ request_line c word t version ++ 13 ∷ 10 ∷ headers_bytes hs body
    → Avoids 32 (c ∷ word)
    → IsTarget t
    → Fits (length buf) (request_line c word t version)
    → AllHeaders (length buf) hs
    → (c == b'P') ≡ false
    → HidesNothing hs
    → QueryText (query_or_empty t.query) fs
    → prepare page_rest arrival rounds frame sock buf ≡ ok (some (asked frame c t hs fs))
unfolding prepare add_remote assq_ref strcmp_zero
prepare-get page_rest arrival rounds frame sock buf c word t version hs body {fs} p a w fits all get
      shown q =
    let request : Request = with_headers hs (started c t) in
    let method : assq_ref (add_remote frame.ipaddr frame.rport request) (codes "method")
        ≡ some (symbol (codes "get")) =
      assq_ref-with_headers (codes "method") hs (started c t) ∙ rw (shown.0, get) refl in
    let text : assq_ref (add_remote frame.ipaddr frame.rport request) (codes "query-string")
        ≡ some (string (query_or_empty t.query)) =
      assq_ref-with_headers (codes "query-string") hs (started c t) ∙ rw shown.1 refl in
    ap (λ built. built >>= with_query page_rest arrival rounds frame)
      (build_request-whole sock buf c word t version hs body p a w fits all)
    ∙ with_query-get page_rest arrival rounds frame request (record sock { pending = body })
        (reverse fs) method
        (get_in-QueryText (add_remote frame.ipaddr frame.rport request) (query_or_empty t.query)
          text q)

-- On a server where each frame is in one place only and a thread holds this one: for a request
-- whose method does not start with the letter P (start_request takes any other that does, as PUT,
-- for a post), written as a client writes it with lines that fit, whose query string is one and
-- whose headers hide neither method nor query string, process_request under catch_req calls the
-- responder with the fields of the query string, the last first, the client's address and the
-- headers; where it gives a reply that reply is sent, where it raises an exception the error
-- message is, and in both cases the socket is closed and the frame stands first in the free list,
-- with each frame in one place only.
pub process_request-IsAnswer :
    (page_rest : ℕ → ℕ) (arrival : Arrival) (rounds : ℕ) {H : Type 0} (lib : Outside H)
    → (number_to_string : ℕ → Bytes) (handlers : List (HandlerEntry H)) (s : Server)
    → (pool queue held : List ℕ) (a : ℕ) (frame : Frame) (sock : Stream) (buf : Bytes) (wire : Wire)
    → (c : ℕ) (word : Bytes) (t : Target) (version : Bytes) (hs : List Header) (body : Bytes)
    → {fs : List (Bytes × Bytes)} → IsServer s pool queue (a ∷ held)
    → get_elem? s.frames a ≡ some frame
    → sock.pending ≡ request_line c word t version ++ 13 ∷ 10 ∷ headers_bytes hs body
    → Avoids 32 (c ∷ word)
    → IsTarget t
    → Fits (length buf) (request_line c word t version)
    → AllHeaders (length buf) hs
    → (c == b'P') ≡ false
    → HidesNothing hs
    → QueryText (query_or_empty t.query) fs
    → Returns (run_responder lib handlers (asked frame c t hs fs))
    → (after : Server) × (sent : Wire) × (process_request page_rest arrival rounds lib
          number_to_string handlers a sock buf wire s
        ≡ ok (record { server = after; wire = sent; is_open = false }))
      × IsServer after (a ∷ pool) queue held
      × IsAnswer number_to_string (run_responder lib handlers (asked frame c t hs fs)) wire sent
unfolding process_request answer_request
process_request-IsAnswer page_rest arrival rounds lib number_to_string handlers s pool queue held a
      frame sock buf wire c word t version hs body {fs} server at_a p avoids w fits all get shown q
      returns =
    let ready =
      prepare-get page_rest arrival rounds frame sock buf c word t version hs body p avoids w fits
        all get shown q in
    let (after, released, served) = release_frame-IsServer s pool queue held a server in
    let (sent, answer, right) =
      answered-IsAnswer number_to_string after wire
        (run_responder lib handlers (asked frame c t hs fs)) returns in
    (after, sent, rw (process_request, at_a, ready, released) answer, served, right)
