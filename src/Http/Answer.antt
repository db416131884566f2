-- ===== src/Http/Answer.antt =====
-- How src/http.c gets a document: the handlers that curl calls, and `http_get_master`. curl is a
-- parameter: what a transfer on a handle with its options calls back, and how it ends.
pub mod Body
use gusher.Base.{
  ℕ, zero, suc, ◌+◌, ◌-◌, ◌*◌, Bool, true, false, Bytes, List, [], ◌∷◌, ◌++◌, map, reverse, length,
  take, drop, leb, ◌==◌, Option, none, some, Run, ok, fault, thrown, ◌>>=◌, ℤ, to_lower,
  if◌then◌else◌,
}
use gusher.Buffer.{store, text_at}
use gusher.CString.{codes, split_at, strcmp_zero}
use gusher.Form.{blank}
use gusher.Http.{post_data}
use gusher.Scheme.{
  Scm, null, boolean, exact, inexact, string, symbol, pair, timestamp, other, cell_of,
}
use gusher.Xml.{XmlNode, skip_space, process_body}

-- `CNODE`, with the bytes of its content.
pub record CNode : Type 0 where
  pub size : ℕ
  pub content : Bytes

-- `write_handler`: a new node in front of the chunks.
unfoldable pub write_handler : Bytes → ℕ → ℕ → List CNode → Run (List CNode)
write_handler buffer size n chunks =
    let rsize = size * n in
    if leb rsize (length buffer)
    then ok (record { size = rsize; content = take rsize buffer } ∷ chunks)
    else fault

-- The loop that takes the spaces off the value's end. The byte in front of an empty value is one of
-- the line's, so the loop stays in the buffer.
abbrev pub trim_value : Bytes → Bytes
trim_value value = reverse (skip_space (reverse value))

abbrev pub downcased : Bytes → Bytes
downcased buf = map to_lower buf

-- `from_utf8` is what `scm_from_utf8_stringn` and `scm_from_utf8_symbol` make of bytes: they raise
-- an exception on bytes that are no UTF-8. `scm_from_latin1_string` takes any bytes.
module _ {D : Type 0} (from_utf8 : Bytes → Run Bytes) where
  abbrev pub header_pair :
      Option (Bytes × Bytes) → List (Bytes × Scm D) → Run (List (Bytes × Scm D))
  header_pair none headers = ok headers
  header_pair (some (name, rest)) headers = do
    sym ← from_utf8 (downcased name)
    ok ((sym, string (trim_value (skip_space rest))) ∷ headers)

  -- `header_handler` on the memory from `data` on, which must have a byte behind those that curl
  -- tells of.
  unfoldable pub header_handler : Bytes → ℕ → ℕ → List (Bytes × Scm D) → Run (List (Bytes × Scm D))
  header_handler buf size n headers = do
    buf ← store buf (size * n) 0
    line ← text_at buf 0
    header_pair (split_at (b':') line) headers

-- `memcpy(p, s, length)`
abbrev pub memcpy : Bytes → ℕ → Bytes → Run Bytes
memcpy mem p s =
    if leb (p + length s) (length mem)
    then ok (take p mem ++ (s ++ drop (p + length s) mem))
    else fault

-- `tsize`
abbrev pub total_size : List CNode → ℕ
total_size [] = 0
total_size (node ∷ next) = node.size + total_size next

-- The loop that fills `bag` from its end.
unfoldable pub fill_bag : Bytes → ℕ → List CNode → Run Bytes
fill_bag bag pt [] = ok bag
fill_bag bag pt (node ∷ chunks) =
    if leb node.size pt
    then (do
      bag ← memcpy bag (pt - node.size) (take node.size node.content)
      fill_bag bag (pt - node.size) chunks)
    else fault

unfoldable pub body_of : (Bytes → Run Bytes) → List CNode → Run Bytes
body_of from_utf8 chunks =
    let tsize = total_size chunks in
    do bag ← fill_bag (blank (tsize + 1)) tsize chunks; from_utf8 (take tsize bag)

-- A call that curl makes during a transfer, on the memory that it passes.
pub data Call : Type 0 where
  header_call : Bytes → ℕ → ℕ → Call
  write_call : Bytes → ℕ → ℕ → Call

-- A transfer: its calls, the code that `curl_easy_perform` returns, and the response code.
pub record Transfer : Type 0 where
  pub calls : List Call
  pub res : ℕ
  pub rescode : ℤ

-- The options of a handle that a request changes.
pub record Handle : Type 0 where
  pub url : Bytes
  pub post : Option Bytes
  pub userpwd : Option Bytes

-- `new_handle`; `curl_easy_init` may give NULL.
unfoldable pub new_handle : Bool → Bytes → Option Handle
new_handle false url = none
new_handle true url = some (record { url = url; post = none; userpwd = none })

module _ {D : Type 0} (from_utf8 : Bytes → Run Bytes) where
  unfoldable pub run_calls :
      List Call → List (Bytes × Scm D) → List CNode → Run (List (Bytes × Scm D) × List CNode)
  run_calls [] headers chunks = ok (headers, chunks)
  run_calls (header_call buf size n ∷ calls) headers chunks = do
    headers ← header_handler from_utf8 buf size n headers
    run_calls calls headers chunks
  run_calls (write_call buffer size n ∷ calls) headers chunks = do
    chunks ← write_handler buffer size n chunks
    run_calls calls headers chunks

module _ {D : Type 0} where
  -- `scm_to_utf8_string`
  abbrev pub to_utf8 : Scm D → Run Bytes
  to_utf8 (string s) = ok s
  to_utf8 _ = thrown

  abbrev pub creds_of : Scm D → Run (Option Bytes)
  creds_of (boolean false) = ok none
  creds_of upwd = do s ← to_utf8 upwd; ok (some s)

  -- `get_auth_creds`
  unfoldable pub get_auth_creds : Scm D → Run (Option Bytes)
  get_auth_creds null = ok none
  get_auth_creds args = creds_of (cell_of args (codes "userpwd"))

  -- The pairs that `post_data` takes from `args`.
  abbrev pub post_pairs : Scm D → Run (List (Bytes × Bytes))
  post_pairs null = ok []
  post_pairs (pair (pair key value) node) = do
    key ← to_utf8 key
    value ← to_utf8 value
    rest ← post_pairs node
    ok ((key, value) ∷ rest)
  post_pairs _ = fault

  abbrev pub posted_of : (Bytes → Bytes) → Scm D → Run (Option Bytes)
  posted_of escape (boolean false) = ok none
  posted_of escape post = do
    pairs ← post_pairs post
    buf ← post_data escape pairs
    post_str ← text_at buf 0
    ok (some post_str)

  -- `post_data(handle, args)`, as the string that it returns.
  unfoldable pub post_string : (Bytes → Bytes) → Scm D → Run (Option Bytes)
  post_string escape null = ok none
  post_string escape args = posted_of escape (cell_of args (codes "post"))

  -- `scm_assq_ref` on the headers.
  abbrev pub header_of : List (Bytes × Scm D) → Bytes → Option (Scm D)
  header_of [] key = none
  header_of ((name, value) ∷ headers) key =
      let later = header_of headers key in if strcmp_zero name key then some value else later

  abbrev pub type_of : Option (Scm D) → Run (Option Bytes)
  type_of none = ok none
  type_of (some ctype) = do stype ← to_utf8 ctype; ok (some stype)

-- A credential stays on the handle where the request brings none.
abbrev pub with_userpwd : Option Bytes → Handle → Handle
with_userpwd none handle = handle
with_userpwd (some userpwd) handle = record handle { userpwd = some userpwd }

-- The reply of a request: its headers and its body.
pub record Answer (D : Type 0) : Type 0 where
  pub headers : List (Bytes × Scm D)
  pub body : Scm D

module _ {D : Type 0} (json_decode : Bytes → Run (Scm D)) (xml_read : Bytes → Option XmlNode) where
  -- `raw ? body : process_body(headers, body)`
  abbrev pub final_body : Bool → List (Bytes × Scm D) → Bytes → Run (Scm D)
  final_body true headers body = ok (string body)
  final_body false headers body = do
    ctype ← type_of (header_of headers (codes "content-type"))
    process_body json_decode xml_read ctype body

module _ {D : Type 0} (from_utf8 : Bytes → Run Bytes) (json_decode : Bytes → Run (Scm D))
    (xml_read : Bytes → Option XmlNode) where
  -- What `http_get_master` does once the handle's options are set.
  unfoldable pub finish_get : Bool → Transfer → Run (Option (Answer D))
  finish_get raw transfer = do
    (headers, chunks) ← run_calls from_utf8 transfer.calls [] []
    let headers = (codes "status", exact transfer.rescode) ∷ headers
    if transfer.res == 0
        then (do
          text ← body_of from_utf8 chunks
          body ← final_body json_decode xml_read raw headers text
          ok (some (record { headers = headers; body = body })))
        else ok none

  -- `http_get_master` on a handle: the answer, nothing for `#f`, and the handle with its options.
  unfoldable pub http_get_master :
      (Bytes → Bytes)
      → (Handle → Transfer)
      → Bool
      → Scm D
      → Handle
      → Run (Option (Answer D) × Handle)
  http_get_master escape perform raw args handle = do
    post_str ← post_string escape args
    userpwd ← get_auth_creds args
    let handle = with_userpwd userpwd (record handle { post = post_str })
    answer ← finish_get raw (perform handle)
    ok (answer, handle)

-- `http_url_encode`; the handle that the escape needs may be missing.
unfoldable pub http_url_encode : {D : Type 0} → Bool → (Bytes → Bytes) → Scm D → Bytes
http_url_encode true escape (string src) = escape src
http_url_encode _ escape src = []

-- `xml_node_name`, `xml_node_attrs` and `xml_node_content`
abbrev pub car : {D : Type 0} → Scm D → Run (Scm D)
car (pair a d) = ok a
car _ = fault

abbrev pub cdr : {D : Type 0} → Scm D → Run (Scm D)
cdr (pair a d) = ok d
cdr _ = fault

unfoldable pub xml_node_name : {D : Type 0} → Scm D → Run (Scm D)
xml_node_name xml_doc = car xml_doc

unfoldable pub xml_node_attrs : {D : Type 0} → Scm D → Run (Scm D)
xml_node_attrs xml_doc = do rest ← cdr xml_doc; car rest

unfoldable pub xml_node_content : {D : Type 0} → Scm D → Run (Scm D)
xml_node_content xml_doc = do rest ← cdr xml_doc; rest ← cdr rest; car rest
