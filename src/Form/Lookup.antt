-- ===== src/Form/Lookup.antt =====
-- What a look-up in the request of src/main.c gives: the headers stand in front of what
-- `start_request` wrote.
use gusher.Base.{
  ℕ, ◌++◌, length, ok, ◌≡◌, refl, ap, ◌∙◌, Bool, Bool-cases, Bytes, List, [], ◌∷◌, map, to_lower,
  Option, none, some, if◌then◌else◌, inl, inr,
}
use gusher.CString.{strcmp_zero}
use gusher.Form.{assq_ref}
use gusher.Request.{Stream, Request, Value, string, build_request}
use gusher.Request.Header.{Header, header_pair}
use gusher.Request.Start.{Target, IsTarget, started}
use gusher.Request.Whole.{
  with_headers, headers_bytes, Fits, AllHeaders, request_line, build_request-whole,
}
use gusher.Buffer.Border.{Avoids}

abbrev pub named : Bytes → Header → Bool
named key h = strcmp_zero (map to_lower h.name) key

abbrev pub or_else : {A : Type 0} → Option A → Option A → Option A
or_else none b = b
or_else (some a) b = some a

-- The value of the last header of that name.
abbrev pub last_named : Bytes → List Header → Option Value
last_named key [] = none
last_named key (h ∷ hs) =
    or_else (last_named key hs) (if named key h then some (string h.value) else none)

or_else_assoc : {A : Type 0} (a b c : Option A) → or_else a (or_else b c) ≡ or_else (or_else a b) c
or_else_assoc none b c = refl
or_else_assoc (some x) b c = refl

assq_ref_step :
    (key : Bytes) (h : Header) (request : Request)
    → assq_ref (header_pair h ∷ request) key
      ≡ or_else (if named key h then some (string h.value) else none) (assq_ref request key)
unfolding assq_ref
assq_ref_step key h request = elim (Bool-cases (named key h)) [
  | inl q ↦ rw q refl
  | inr q ↦ rw q refl
]

pub assq_ref-with_headers :
    (key : Bytes) (hs : List Header) (request : Request)
    → assq_ref (with_headers hs request) key ≡ or_else (last_named key hs) (assq_ref request key)
assq_ref-with_headers key [] request = refl
assq_ref-with_headers key (h ∷ hs) request =
    assq_ref-with_headers key hs (header_pair h ∷ request)
    ∙ ap (or_else (last_named key hs)) (assq_ref_step key h request)
    ∙ or_else_assoc (last_named key hs) (if named key h then some (string h.value) else none)
        (assq_ref request key)

-- On a connection that sends a request line, header lines, an empty line and a body, where each
-- line fits in the buffer, a look-up of any name in the request that is built gives the value of
-- the last header of that name, in any case of letters, and only where there is none what
-- start_request wrote: a header named url-path, method, url or query-string hides what the request
-- line gave.
pub assq_ref-build_request :
    (key : Bytes) (fd : Stream) (mem : Bytes) (c : ℕ) (word : Bytes) (t : Target) (version : Bytes)
    → (hs : List Header) (body : Bytes)
    → fd.pending ≡ request_line c word t version ++ 13 ∷ 10 ∷ headers_bytes hs body
    → Avoids 32 (c ∷ word)
    → IsTarget t
    → Fits (length mem) (request_line c word t version)
    → AllHeaders (length mem) hs
    → (request : Request) × (build_request fd mem
        ≡ ok (some (request, record fd { pending = body })))
      × (assq_ref request key ≡ or_else (last_named key hs) (assq_ref (started c t) key))
assq_ref-build_request key fd mem c word t version hs body p a w fits all = (
  with_headers hs (started c t),
  build_request-whole fd mem c word t version hs body p a w fits all,
  assq_ref-with_headers key hs (started c t),
)
