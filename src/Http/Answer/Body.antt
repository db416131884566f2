-- ===== src/Http/Answer/Body.antt =====
-- What `http_get_master` of src/http.c makes of the lines and pieces that curl passes on.
use gusher.Base.{
  ℕ, suc, ◌+◌, ◌-◌, ◌*◌, ◌≤◌, ◌≡◌, refl, sym, ap, ◌∙◌, Bool, true, Bytes, List, [], ◌∷◌, ◌++◌,
  append_assoc, append-nil, map, length, length-append, length-take, length-drop, take, drop,
  take_front, drop_behind, take-drop, take-all, zero, leb, ◌==◌, All, Option, none, some, Run, ok,
  ◌>>=◌, bind_assoc, bind_same, ℤ, if◌then◌else◌, arith,
}
use gusher.Buffer.Border.{IsText, store_at, text_at_lem}
use gusher.CString.{codes, split_at}
use gusher.Form.{blank}
use gusher.Form.Body.{length-blank}
use gusher.Scheme.{Scm, exact}
use gusher.Xml.{XmlNode}
use gusher.Http.Answer.{
  CNode, write_handler, header_pair, header_handler, memcpy, total_size, fill_bag, body_of, Call,
  header_call, write_call, Transfer, Handle, run_calls, get_auth_creds, post_string, with_userpwd,
  Answer, final_body, finish_get, http_get_master,
}

-- What curl passes on: a header line, with the byte that stands behind it, or a piece of the body.
pub data Event : Type 0 where
  line : Bytes → ℕ → Event
  piece : Bytes → Event

abbrev pub call_of : Event → Call
call_of (line s x) = header_call (s ++ x ∷ []) 1 (length s)
call_of (piece s) = write_call s 1 (length s)

-- A line has no NUL.
abbrev pub IsEvent : Event → Type 0
IsEvent (line s x) = IsText s
IsEvent (piece s) = Unit

-- The pieces one after the other.
abbrev pub body_text : List Event → Bytes
body_text [] = []
body_text (line s x ∷ events) = body_text events
body_text (piece s ∷ events) = s ++ body_text events

-- The lines with a colon as headers, each in front of those before it, with the names decoded.
abbrev pub with_lines :
    {D : Type 0}
    → (Bytes → Run Bytes)
    → List Event
    → List (Bytes × Scm D)
    → Run (List (Bytes × Scm D))
with_lines from_utf8 [] headers = ok headers
with_lines from_utf8 (line s x ∷ events) headers = do
  headers ← header_pair from_utf8 (split_at (b':') s) headers
  with_lines from_utf8 events headers
with_lines from_utf8 (piece s ∷ events) headers = with_lines from_utf8 events headers

abbrev node_of : Bytes → CNode
node_of s = record { size = length s; content = s }

abbrev with_pieces : List Event → List CNode → List CNode
with_pieces [] chunks = chunks
with_pieces (line s x ∷ events) chunks = with_pieces events chunks
with_pieces (piece s ∷ events) chunks = with_pieces events (node_of s ∷ chunks)

header_handler-line :
    (D : Type 0) (from_utf8 : Bytes → Run Bytes) (s : Bytes) (x : ℕ)
    (headers : List (Bytes × Scm D))
    → IsText s
    → header_handler from_utf8 (s ++ x ∷ []) 1 (length s) headers
      ≡ header_pair from_utf8 (split_at (b':') s) headers
unfolding header_handler
header_handler-line D from_utf8 s x headers h =
    rw
      (
        header_handler,
        store_at (s ++ x ∷ []) s x [] (1 * length s) 0 refl (omega arith),
        text_at_lem (s ++ 0 ∷ []) [] 0 s [] refl refl h,
      )
      refl

write_handler-piece :
    (s : Bytes) (chunks : List CNode)
    → write_handler s 1 (length s) chunks ≡ ok (node_of s ∷ chunks)
unfolding write_handler
write_handler-piece s chunks =
    let one : 1 * length s ≡ length s = omega arith in
    let fits : leb (length s) (length s) ≡ true = ground arith in
    rw (write_handler, one, fits, take-all s) refl

run_calls-events :
    (D : Type 0) (from_utf8 : Bytes → Run Bytes) (events : List Event)
    → (headers : List (Bytes × Scm D)) (chunks : List CNode) → All IsEvent events
    → run_calls from_utf8 (map call_of events) headers chunks
      ≡ (with_lines from_utf8 events headers >>= λ headers. ok (headers, with_pieces events chunks))
unfolding run_calls
run_calls-events D from_utf8 [] headers chunks h = refl
run_calls-events D from_utf8 (line s x ∷ events) headers chunks h =
    let head : Run (List (Bytes × Scm D)) = header_pair from_utf8 (split_at (b':') s) headers in
    ap (λ m. m >>= λ hs. run_calls from_utf8 (map call_of events) hs chunks)
      (header_handler-line D from_utf8 s x headers h.0)
    ∙ bind_same {m = head} refl (λ hs. run_calls-events D from_utf8 events hs chunks h.1)
    ∙ sym (
        bind_assoc head (λ hs. with_lines from_utf8 events hs)
          λ hs. ok (hs, with_pieces events chunks))
run_calls-events D from_utf8 (piece s ∷ events) headers chunks h =
    rw (write_handler-piece s chunks)
      (run_calls-events D from_utf8 events headers (node_of s ∷ chunks) h.1)

-- The contents of the chunks, the last one's first.
abbrev texts : List CNode → Bytes
texts [] = []
texts (node ∷ chunks) = texts chunks ++ node.content

abbrev IsSized : List CNode → Type 0
IsSized chunks = All (λ node. node.size ≡ length node.content) chunks

length-texts : (chunks : List CNode) → IsSized chunks → length (texts chunks) ≡ total_size chunks
length-texts [] h = refl
length-texts (node ∷ chunks) h =
    omega (arith, length-texts chunks h.1, h.0, length-append (texts chunks) node.content)

texts-with_pieces :
    (events : List Event) (chunks : List CNode)
    → texts (with_pieces events chunks) ≡ texts chunks ++ body_text events
texts-with_pieces [] chunks = sym (append-nil (texts chunks))
texts-with_pieces (line s x ∷ events) chunks = texts-with_pieces events chunks
texts-with_pieces (piece s ∷ events) chunks =
    texts-with_pieces events (node_of s ∷ chunks) ∙ append_assoc (texts chunks) s (body_text events)

with_pieces-IsSized :
    (events : List Event) (chunks : List CNode)
    → IsSized chunks
    → IsSized (with_pieces events chunks)
with_pieces-IsSized [] chunks h = h
with_pieces-IsSized (line s x ∷ events) chunks h = with_pieces-IsSized events chunks h
with_pieces-IsSized (piece s ∷ events) chunks h =
    with_pieces-IsSized events (node_of s ∷ chunks) (refl, h)

memcpy-between :
    (pre old s rest : Bytes) (p : ℕ)
    → p ≡ length pre
    → length old ≡ length s
    → memcpy (pre ++ (old ++ rest)) p s ≡ ok (pre ++ (s ++ rest))
memcpy-between pre old s rest p e l =
    let whole : Bytes = pre ++ (old ++ rest) in
    let fits : leb (p + length s) (length whole) ≡ true =
      ground (arith, length-append pre (old ++ rest), length-append old rest) in
    let behind : drop (p + length s) whole ≡ rest =
      ap (drop (p + length s)) (sym (append_assoc pre old rest))
      ∙ drop_behind (pre ++ old) rest (p + length s) (omega (arith, length-append pre old)) in
    rw (memcpy, fits, take_front pre (old ++ rest) p e, behind) refl

fill_bag-step :
    (bag next : Bytes) (pt : ℕ) (node : CNode) (chunks : List CNode)
    → node.size ≤ pt
    → memcpy bag (pt - node.size) (take node.size node.content) ≡ ok next
    → fill_bag bag pt (node ∷ chunks) ≡ fill_bag next (pt - node.size) chunks
unfolding fill_bag
fill_bag-step bag next pt node chunks l m =
    let fits : leb node.size pt ≡ true = ground arith in rw (fill_bag, fits, m) refl

fill_bag-texts :
    (chunks : List CNode) (pre rest : Bytes) (pt : ℕ)
    → IsSized chunks
    → pt ≡ total_size chunks
    → length pre ≡ pt
    → fill_bag (pre ++ rest) pt chunks ≡ ok (texts chunks ++ rest)
unfolding fill_bag
fill_bag-texts [] [] rest pt h e l = refl
fill_bag-texts [] (c ∷ pre) rest pt h e l = absurd (omega arith)
fill_bag-texts (node ∷ chunks) pre rest pt h e l =
    let left : ℕ = pt - node.size in
    let front : Bytes = take left pre in
    let old : Bytes = drop left pre in
    let cut : pre ≡ front ++ old = sym (take-drop left pre) in
    let own : take node.size node.content ≡ node.content =
      ap (λ k. take k node.content) h.0 ∙ take-all node.content in
    let size : length front ≡ left = omega (arith, length-take left pre) in
    let same : length old ≡ length node.content = omega (arith, length-drop left pre, h.0) in
    ap (λ m. fill_bag (m ++ rest) pt (node ∷ chunks)) cut
    ∙ ap (λ m. fill_bag m pt (node ∷ chunks)) (append_assoc front old rest)
    ∙ fill_bag-step (front ++ (old ++ rest)) (front ++ (node.content ++ rest)) pt node chunks
        (omega arith)
        (ap (memcpy (front ++ (old ++ rest)) left) own
          ∙ memcpy-between front old node.content rest left (sym size) same)
    ∙ fill_bag-texts chunks front (node.content ++ rest) left h.1 (omega arith) size
    ∙ ap ok (sym (append_assoc (texts chunks) node.content rest))

blank-suc : (n : ℕ) → blank (n + 1) ≡ blank n ++ 0 ∷ []
blank-suc zero = refl
blank-suc (suc n) =
    let same : suc n + 1 ≡ suc (n + 1) = omega arith in ap blank same ∙ ap (◌∷◌ 0) (blank-suc n)

body_of-texts :
    (from_utf8 : Bytes → Run Bytes) (chunks : List CNode)
    → IsSized chunks
    → body_of from_utf8 chunks ≡ from_utf8 (texts chunks)
unfolding body_of
body_of-texts from_utf8 chunks h =
    let size : ℕ = total_size chunks in
    let filled : fill_bag (blank (size + 1)) size chunks ≡ ok (texts chunks ++ 0 ∷ []) =
      ap (λ m. fill_bag m size chunks) (blank-suc size)
      ∙ fill_bag-texts chunks (blank size) (0 ∷ []) size h refl (length-blank size) in
    rw (body_of, filled)
      (ap from_utf8 (take_front (texts chunks) (0 ∷ []) size (sym (length-texts chunks h))))

module _ {D : Type 0} (from_utf8 : Bytes → Run Bytes) (json_decode : Bytes → Run (Scm D))
    (xml_read : Bytes → Option XmlNode) where
  -- What a transfer makes of the events that curl passes on.
  abbrev pub reply_of : Bool → List Event → ℕ → ℤ → Run (Option (Answer D))
  reply_of raw events res rescode = do
    headers ← with_lines from_utf8 events []
    let headers = (codes "status", exact rescode) ∷ headers
    if res == 0
        then (do
          text ← from_utf8 (body_text events)
          body ← final_body json_decode xml_read raw headers text
          ok (some (record { headers = headers; body = body })))
        else ok none

  -- What follows the calls of curl.
  abbrev answered : Bool → ℕ → ℤ → List (Bytes × Scm D) → List CNode → Run (Option (Answer D))
  answered raw res rescode headers chunks =
      if res == 0
      then (do
        text ← body_of from_utf8 chunks
        body ← final_body json_decode xml_read raw ((codes "status", exact rescode) ∷ headers) text
        ok (some (record { headers = (codes "status", exact rescode) ∷ headers; body = body })))
      else ok none

  finish_get-events :
      (raw : Bool) (events : List Event) (res : ℕ) (rescode : ℤ)
      → All IsEvent events
      → finish_get from_utf8 json_decode xml_read raw
          (record { calls = map call_of events; res = res; rescode = rescode })
        ≡ reply_of raw events res rescode
  unfolding finish_get
  finish_get-events raw events res rescode h =
      let chunks : List CNode = with_pieces events [] in
      let read : body_of from_utf8 chunks ≡ from_utf8 (body_text events) =
        body_of-texts from_utf8 chunks (with_pieces-IsSized events [] tt)
        ∙ ap from_utf8 (texts-with_pieces events []) in
      ap (λ m. m >>= λ (hs, chunks). answered raw res rescode hs chunks)
        (run_calls-events D from_utf8 events [] [] h)
      ∙ bind_assoc (with_lines from_utf8 events []) (λ hs. ok (hs, chunks))
          (λ (hs, chunks). answered raw res rescode hs chunks)
      ∙ bind_same {m = with_lines from_utf8 events []} refl (λ hs. rw read refl)

  -- Where the arguments' post and credentials can be read, and curl passes on, on memory with room
  -- for a byte behind each header line and as many bytes as it tells of for each piece of the
  -- body, any sequence of header lines and pieces, http_get_master gives no answer if the transfer
  -- fails, and otherwise the headers, the last first behind the status, with the body: all pieces
  -- joined in the order in which they came, as they are for a raw request and decoded by the
  -- content type otherwise; where scm_from_utf8 raises an exception, on the name of a header line
  -- with a colon or on the joined body, so does http_get_master. The handle keeps the post and the
  -- credentials.
  pub http_get_master-events :
      (escape : Bytes → Bytes) (perform : Handle → Transfer) (raw : Bool) (args : Scm D)
      → (handle : Handle) (post_str userpwd : Option Bytes) (events : List Event) (res : ℕ)
      → (rescode : ℤ) → post_string escape args ≡ ok post_str
      → get_auth_creds args ≡ ok userpwd
      → perform (with_userpwd userpwd (record handle { post = post_str }))
        ≡ record { calls = map call_of events; res = res; rescode = rescode }
      → All IsEvent events
      → http_get_master from_utf8 json_decode xml_read escape perform raw args handle ≡ (
          reply_of raw events res rescode >>= λ answer.
          ok (answer, with_userpwd userpwd (record handle { post = post_str })))
  unfolding http_get_master
  http_get_master-events escape perform raw args handle post_str userpwd events res rescode p u t
        h =
      rw (http_get_master, p, u, t, finish_get-events raw events res rescode h) refl
