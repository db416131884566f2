-- ===== src/Request/Whole.antt =====
-- The loop of `process_request`, src/main.c, on the bytes of a whole request.
use gusher.Base.{
  ℕ, zero, suc, ◌+◌, ◌<◌, ◌≤◌, ◌≡◌, refl, ap, ◌∙◌, false, Bytes, List, [], ◌∷◌, ◌++◌, append_assoc,
  ◌==◌, some, ok, length, drop, length-append, length-drop, All, arith,
}
use gusher.Buffer.{load}
use gusher.Buffer.Border.{Avoids}
use gusher.Request.{Stream, Request, Value, add_line, build_loop, build_request}
use gusher.Request.Line.{IsLine, mygetline-line}
use gusher.Request.Start.{Target, IsTarget, url, started, start_request-started}
use gusher.Request.Header.{Header, header_bytes, header_pair, IsHeader, add_line-header}

-- The header lines, the empty line, and what follows.
abbrev pub headers_bytes : List Header → Bytes → Bytes
headers_bytes [] body = 13 ∷ 10 ∷ body
headers_bytes (h ∷ hs) body = header_bytes h ++ 13 ∷ 10 ∷ headers_bytes hs body

-- The pairs of the headers, each in front of those before it.
abbrev pub with_headers : List Header → Request → Request
with_headers [] request = request
with_headers (h ∷ hs) request = with_headers hs (header_pair h ∷ request)

-- A line that the buffer has room for.
abbrev pub Fits : ℕ → Bytes → Type 0
Fits len line = IsLine line × (length line + 2 ≤ len)

abbrev pub AllHeaders : ℕ → List Header → Type 0
AllHeaders len = All (λ h. IsHeader h × Fits len (header_bytes h))

-- The buffer after a line is as long as it was.
filled-length :
    (line mem : Bytes) (len : ℕ)
    → length mem ≡ len
    → length line + 2 ≤ len
    → length (line ++ 0 ∷ 10 ∷ drop (suc (suc (length line))) mem) ≡ len
filled-length line mem len l f =
    let n = suc (suc (length line)) in
    omega (arith, l, length-append line (0 ∷ 10 ∷ drop n mem), length-drop n mem)

-- A header line is not empty.
header_first :
    (name rest more : Bytes)
    → Avoids b':' name
    → (c : ℕ) × (load ((name ++ b':' ∷ rest) ++ more) 0 ≡ ok c) × ((c == 0) ≡ false)
unfolding load
header_first [] rest more w = (b':', refl, refl)
header_first (c ∷ name) rest more w = (c, refl, ground (arith, w.0.0))

build_loop-headers :
    (fuel len : ℕ) (hs : List Header) (body : Bytes) (fd : Stream) (mem : Bytes)
    → (pair : Bytes × Value) (request : Request) → fd.pending ≡ headers_bytes hs body
    → AllHeaders len hs
    → length mem ≡ len
    → 2 ≤ len
    → length hs < fuel
    → build_loop fuel len fd mem (pair ∷ request)
      ≡ ok (some (with_headers hs (pair ∷ request), record fd { pending = body }))
unfolding build_loop load
build_loop-headers zero len hs body fd mem pair request p a l room f = absurd (omega arith)
build_loop-headers (suc fuel) len [] body fd mem pair request p a l room f =
    rw (mygetline-line fd [] body mem len p tt l room) refl
build_loop-headers (suc fuel) len (h ∷ hs) body fd mem pair request p a l room f =
    let line = header_bytes h in
    let more = 10 ∷ drop (suc (suc (length line))) mem in
    let (c, first, plain) = header_first h.name (h.spaces ++ h.value) (0 ∷ more) a.0.0.name_text in
    let (mem', added, kept) = add_line-header (line ++ 0 ∷ more) h more pair request refl a.0.0 in
    let got = mygetline-line fd line (headers_bytes hs body) mem len p a.0.1.0 l a.0.1.1 in
    let l' : length mem' ≡ len = kept ∙ filled-length line mem len l a.0.1.1 in
    let rest : Stream = record fd { pending = headers_bytes hs body } in
    let next =
      build_loop-headers fuel len hs body rest mem' (header_pair h) (pair ∷ request) refl a.1 l'
        room (omega arith) in
    rw (got, first, plain, added) next

-- The first line: a method, the target, and anything behind it.
abbrev pub request_line : ℕ → Bytes → Target → Bytes → Bytes
request_line c word t version = (c ∷ word) ++ 32 ∷ (url t ++ 32 ∷ version)

length-headers : (hs : List Header) (body : Bytes) → length hs < length (headers_bytes hs body)
length-headers [] body = omega arith
length-headers (h ∷ hs) body = omega (
  arith,
  length-headers hs body,
  length-append (header_bytes h) (13 ∷ 10 ∷ headers_bytes hs body),
)

-- On a connection that sends a request line (a method without a space, a target without a space
-- whose path has no `?`, anything), header lines (a name without a colon, spaces, a value that
-- does not start with a space), an empty line and a body, where each line fits in the line buffer,
-- the loop of process_request ends with the URL, path, query string and headers of that request,
-- with `post` for the method where its first letter is P and `get` otherwise, and leaves the body
-- to be read.
pub build_request-whole :
    (fd : Stream) (mem : Bytes) (c : ℕ) (word : Bytes) (t : Target) (version : Bytes)
    → (hs : List Header) (body : Bytes)
    → fd.pending ≡ request_line c word t version ++ 13 ∷ 10 ∷ headers_bytes hs body
    → Avoids 32 (c ∷ word)
    → IsTarget t
    → Fits (length mem) (request_line c word t version)
    → AllHeaders (length mem) hs
    → build_request fd mem ≡ ok (some (with_headers hs (started c t), record fd { pending = body }))
unfolding build_request build_loop add_line load
build_request-whole fd mem c word t version hs body p a w fits all =
    let line = request_line c word t version in
    let len = length mem in
    let more = 10 ∷ drop (suc (suc (length line))) mem in
    let plain : (c == 0) ≡ false = ground (arith, a.0.0) in
    let shape : line ++ 0 ∷ more ≡ (c ∷ word) ++ 32 ∷ (url t ++ 32 ∷ (version ++ 0 ∷ more)) =
      append_assoc (c ∷ word) (32 ∷ (url t ++ 32 ∷ version)) (0 ∷ more)
      ∙ ap (λ s. (c ∷ word) ++ 32 ∷ s) (append_assoc (url t) (32 ∷ version) (0 ∷ more)) in
    let (mem', begun, kept) =
      start_request-started (line ++ 0 ∷ more) c word t (version ++ 0 ∷ more) shape a w in
    let got = mygetline-line fd line (headers_bytes hs body) mem len p fits.0 refl fits.1 in
    let l' : length mem' ≡ len = kept ∙ filled-length line mem len refl fits.1 in
    let rest : Stream = record fd { pending = headers_bytes hs body } in
    let next =
      build_loop-headers (length fd.pending) len hs body rest mem' _ _ refl all l'
        (omega (arith, fits.1))
        (omega (
          arith,
          ap length p,
          length-headers hs body,
          length-append line (13 ∷ 10 ∷ headers_bytes hs body),
        )) in
    rw (got, plain, begun) next
