-- ===== src/Multipart.antt =====
-- Forms that are posted in parts, src/main.c: `form_multipart`, `process_chunk` and `post_in`.
-- A pointer into a part stands as the part's bytes from it on; the part ends with the NUL that
-- `form_multipart` writes behind it.
pub mod Header
pub mod Chunk
pub mod Boundary
pub mod Loop
pub mod Body
pub mod Whole
use gusher.Base.{
  ℕ, zero, suc, ◌+◌, ◌-◌, Bool, true, false, Bytes, List, [], ◌∷◌, ◌++◌, ◌==◌, ltb, leb, length,
  take, drop, if◌then◌else◌, Option, none, some, Run, ok, fault, out_of_fuel, ◌>>=◌, ℤ, pos, negsuc,
  minus,
}
use gusher.Buffer.{store, index}
use gusher.CString.{codes, split_at, strstr, strcmp_zero, strncmp_zero}
use gusher.Form.{
  Fields, Arrival, read_size, assq_ref, to_locale_string, request_length, form_urlencoded,
  strcasestr, memscan, blank,
}
use gusher.Request.{
  Request, Value, symbol, string, integer, not_null, Payload, decoded, saved, Part,
}

-- `index(pt, '\n')`: the line, and what is behind it.
abbrev pub line_end : Bytes → Option (Bytes × Bytes)
line_end [] = none
line_end (c ∷ s) =
    let rest = line_end s in
    if c == 0
    then none
    else if c == 10
    then some ([], s)
    else elim rest [ none ↦ none | some (l, r) ↦ some (c ∷ l, r) ]

-- The line once a `\r` at its end is overwritten.
abbrev pub strip_cr : Bytes → Bytes
strip_cr [] = []
strip_cr (c ∷ []) = if c == 13 then [] else c ∷ []
strip_cr (c ∷ d ∷ s) = c ∷ strip_cr (d ∷ s)

-- What stands in quotes behind `field`, which ends with a quote.
abbrev pub quoted : Bytes → Bytes → Run (Option Bytes)
quoted line field = elim (strcasestr line field) [
  | none ↦ ok none
  | some k ↦ elim (split_at (b'"') (drop k line)) [
    | none ↦ fault
    | some (before, behind) ↦ elim (split_at (b'"') behind) [
      | none ↦ fault
      | some (name, rest) ↦ ok (some name)
    ]
  ]
]

-- What the headers of a part have said so far.
pub record Head : Type 0 where
  pub key : Option Bytes
  pub orig_file : Option Bytes

abbrev pub or_before : Option Bytes → Option Bytes → Option Bytes
or_before none old = old
or_before (some new) old = some new

-- One header line, as a string.
unfoldable pub chunk_line : Bytes → Head → Run Head
chunk_line line head = elim (strcasestr line (codes "content-disposition")) [
  | none ↦ ok head
  | some (suc k) ↦ ok head
  | some zero ↦ do
    name ← quoted line (codes "; name=\"")
    file ← quoted line (codes "; filename=\"")
    ok (record { key = or_before name head.key; orig_file = or_before file head.orig_file })
]

-- The loop of `process_chunk` from `pt`, with what it leaves `pt` at.
unfoldable pub chunk_loop : ℕ → Bytes → Head → Run (Head × Bytes)
chunk_loop zero pt head = out_of_fuel
chunk_loop (suc f) pt head = elim (line_end pt) [
  | none ↦ ok (head, pt)
  | some (line, rest) ↦ elim (strip_cr line) [
    | [] ↦ ok (head, rest)
    | c ∷ s ↦ do head ← chunk_line (c ∷ s) head; chunk_loop f rest head
  ]
]

abbrev pub payload_of : Option Bytes → Bytes → Payload
payload_of none content = decoded content
payload_of (some name) content = saved content name

-- `process_chunk(chunk, len)` on the bytes of the chunk.
unfoldable pub process_chunk : Bytes → Run Part
process_chunk chunk = do
  (head, pt) ← chunk_loop (suc (length chunk)) chunk (record { key = none; orig_file = none })
  ok (record { key = head.key; value = payload_of head.orig_file pt })

-- a - b in `size_t`.
abbrev pub size_minus : ℕ → ℕ → ℕ
size_minus a b = if leb b a then a - b else a + 18446744073709551616 - b

-- The loop of `form_multipart` over the file that is mapped. What `process_chunk` writes in a part
-- is not read again.
unfoldable pub parts_loop : ℕ → Bytes → ℕ → ℕ → Bytes → List Part → Run (List Part)
parts_loop zero mem cursor field rboundary query = out_of_fuel
parts_loop (suc f) mem cursor field rboundary query = do
  found ← memscan mem cursor field rboundary
  elim found [
    | none ↦ ok query
    | some stop ↦ do
      mem ← store mem stop 0
      part ← process_chunk (take (stop - cursor) (drop cursor mem))
      line ← index mem (stop + length rboundary) 10
      eol ← not_null line
      let left = size_minus field (suc eol - cursor)
      parts_loop f mem (suc eol) left rboundary (part ∷ query)
  ]

-- The loop that reads the body, with the length that is left: the bytes it writes to the file, and
-- those that stay to be read. `read` gives 0 when the peer has closed; on an error it gives -1, and
-- the code writes as many bytes as `size_t` can count.
unfoldable pub body_loop : Arrival → Bool → ℕ → ℤ → Bytes → Run (Bytes × Bytes)
body_loop arrival broken zero left pending = out_of_fuel
body_loop arrival broken (suc f) left (c ∷ pending) =
    let n = read_size arrival 4096 (length (c ∷ pending)) in
    elim (minus left n) [
      | pos zero ↦ ok (take n (c ∷ pending), drop n (c ∷ pending))
      | negsuc k ↦ ok (take n (c ∷ pending), drop n (c ∷ pending))
      | pos (suc more) ↦ do
        (file, rest) ← body_loop arrival broken f (pos (suc more)) (drop n (c ∷ pending))
        ok (take n (c ∷ pending) ++ file, rest)
    ]
body_loop arrival true (suc f) left [] = fault
body_loop arrival false (suc f) (pos zero) [] = ok ([], [])
body_loop arrival false (suc f) (pos (suc n)) [] = body_loop arrival false f (pos (suc n)) []
body_loop arrival false (suc f) (negsuc n) [] = ok ([], [])

-- The parts of a file that was mapped: its bytes, and the rest of its last page. A file without a
-- byte is not mapped.
unfoldable pub mapped_parts : (ℕ → ℕ) → Bytes → Bytes → Run (Option (List Part))
mapped_parts page_rest rboundary [] = ok none
mapped_parts page_rest rboundary (c ∷ file) =
    let maplen = length (c ∷ file) in
    let map = (c ∷ file) ++ blank (page_rest maplen) in
    do
      line ← index map 0 10
      eol ← not_null line
      query ← parts_loop (suc maplen) map (suc eol) maplen rboundary []
      ok (some query)

-- `rboundary`, of 256 bytes.
abbrev pub rboundary_of : Bytes → Run Bytes
rboundary_of boundary = elim (split_at (b'-') boundary) [
  | none ↦ fault
  | some (before, dashes) ↦
      let rboundary = 13 ∷ 10 ∷ (codes "--" ++ b'-' ∷ dashes) in
      if ltb (length rboundary) 256 then ok rboundary else fault
]

-- `form_multipart(request, sock, ctype)`; nothing for `#f`.
unfoldable pub form_multipart :
    (ℕ → ℕ) → Arrival → Bool → ℕ → Request → Bytes → Bytes → Run (Option (List Part) × Bytes)
form_multipart page_rest arrival broken rounds request ctype pending =
    elim (strstr ctype (codes "boundary=")) [
      | none ↦ ok (none, pending)
      | some boundary ↦ do
        rboundary ← rboundary_of boundary
        clength ← request_length request
        (file, rest) ← body_loop arrival broken rounds clength pending
        query ← mapped_parts page_rest rboundary file
        ok (query, rest)
    ]

-- What a request posts: `#f`, the fields of a query string, or parts.
pub data Posted : Type 0 where
  no_form : Posted
  fields : Fields → Posted
  parts : List Part → Posted

abbrev posted_parts : Option (List Part) → Posted
posted_parts none = no_form
posted_parts (some query) = parts query

abbrev is_post : Option Value → Bool
is_post (some (symbol name)) = strcmp_zero name (codes "post")
is_post _ = false

-- `post_in` on the content type.
abbrev posted : (ℕ → ℕ) → Arrival → Bool → ℕ → Request → Bytes → Option Value → Run (Posted × Bytes)
posted page_rest arrival broken rounds request pending none = ok (no_form, pending)
posted page_rest arrival broken rounds request pending (some ctype) = do
  type ← to_locale_string ctype
  elim (strstr type (codes "application/x-www-form-urlencoded")) [
    | some at ↦ do
      (query, rest) ← form_urlencoded arrival broken request pending
      ok (fields query, rest)
    | none ↦
        if strncmp_zero 20 type (codes "multipart/form-data;")
        then (do
          (query, rest) ← form_multipart page_rest arrival broken rounds request type pending
          ok (posted_parts query, rest))
        else ok (no_form, pending)
  ]

-- `post_in(request, sock)`
unfoldable pub post_in : (ℕ → ℕ) → Arrival → Bool → ℕ → Request → Bytes → Run (Posted × Bytes)
post_in page_rest arrival broken rounds request pending =
    if is_post (assq_ref request (codes "method"))
    then posted page_rest arrival broken rounds request pending
        (assq_ref request (codes "content-type"))
    else ok (no_form, pending)
