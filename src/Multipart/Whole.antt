-- ===== src/Multipart/Whole.antt =====
-- `form_multipart` of src/main.c on the form that a browser posts.
use gusher.Base.{
  ℕ, ◌+◌, ◌≤◌, ◌≡◌, refl, Bool, Bytes, List, [], ◌∷◌, ◌++◌, map, reverse, length, All, Option, some,
  ok, ℤ, pos, ltb, true, arith,
}
use gusher.Buffer.Border.{Avoids}
use gusher.CString.{codes, split_at, strstr}
use gusher.Form.{Arrival, request_length}
use gusher.Multipart.{payload_of, rboundary_of, body_loop, mapped_parts, form_multipart}
use gusher.Multipart.Header.{FormPart, show_part, IsPart}
use gusher.Multipart.Chunk.{process_chunk-part}
use gusher.Multipart.Boundary.{EndsFirst}
use gusher.Multipart.Loop.{AllRead, shown}
use gusher.Multipart.Body.{form_body, mapped_parts-body, body_loop-whole}
use gusher.Request.{Request, Part}

-- What a part becomes.
abbrev pub part_of : FormPart → Part
part_of p = record { key = some p.name; value = payload_of p.filename p.content }

-- Parts that can be read, in which the boundary does not stand.
abbrev pub IsForm : Bytes → List FormPart → Type 0
IsForm rb forms = All (λ p. IsPart p × EndsFirst (show_part p) rb) forms

IsForm-AllRead :
    (rb : Bytes) (forms : List FormPart)
    → IsForm rb forms
    → AllRead rb (map show_part forms) (map part_of forms)
IsForm-AllRead rb [] h = tt
IsForm-AllRead rb (p ∷ forms) (h, more) =
    (h.1, process_chunk-part p h.0, IsForm-AllRead rb forms more)

form_multipart-run :
    (page_rest : ℕ → ℕ) (arrival : Arrival) (broken : Bool) (rounds : ℕ) (request : Request)
    → (ctype pending boundary rb file rest : Bytes) (clength : ℤ) (query : Option (List Part))
    → strstr ctype (codes "boundary=") ≡ some boundary
    → rboundary_of boundary ≡ ok rb
    → request_length request ≡ ok clength
    → body_loop arrival broken rounds clength pending ≡ ok (file, rest)
    → mapped_parts page_rest rb file ≡ ok query
    → form_multipart page_rest arrival broken rounds request ctype pending ≡ ok (query, rest)
unfolding form_multipart
form_multipart-run page_rest arrival broken rounds request ctype pending boundary rb file rest
      clength query s r l b m =
    rw (form_multipart, s, r, l, b, m) refl

rboundary_of-dash :
    (mark : Bytes)
    → length mark ≤ 250
    → rboundary_of (codes "boundary=" ++ b'-' ∷ mark) ≡ ok (13 ∷ 10 ∷ (codes "---" ++ mark))
unfolding split_at
rboundary_of-dash mark fits =
    let short : ltb (length (13 ∷ 10 ∷ (codes "---" ++ mark))) 256 ≡ true = ground arith in
    rw short refl

-- Where the content type gives, behind its first `boundary=`, a boundary that starts with a dash,
-- as browsers make them, and has at most 251 bytes, the content-length is the body's, and the body
-- is a line with two dashes and that boundary and then parts, each with headers that process_chunk
-- can read and no boundary inside, form_multipart reads the body, in whatever pieces it comes, and
-- gives the name of each part with its content (the string that scm_from_stringn makes of it as
-- UTF-8, with question marks for bytes that are none), or where there is a file's name with that
-- name and a file of the content, the last part first; the mapped file's last page must have room
-- for one boundary line behind it.
pub form_multipart-IsForm :
    (page_rest : ℕ → ℕ) (arrival : Arrival) (broken : Bool) (rounds : ℕ) (request : Request)
    → (ctype mark : Bytes) (forms : List FormPart)
    → strstr ctype (codes "boundary=") ≡ some (codes "boundary=" ++ b'-' ∷ mark)
    → length mark ≤ 250
    → Avoids 10 mark
    → IsForm (13 ∷ 10 ∷ (codes "---" ++ mark)) forms
    → request_length request
      ≡ ok (pos (length (form_body (codes "---" ++ mark) (map show_part forms))))
    → length (form_body (codes "---" ++ mark) (map show_part forms)) ≤ rounds
    → length mark + 5 ≤ page_rest (length (form_body (codes "---" ++ mark) (map show_part forms)))
    → form_multipart page_rest arrival broken rounds request ctype
        (form_body (codes "---" ++ mark) (map show_part forms))
      ≡ ok (some (reverse (map part_of forms)), [])
form_multipart-IsForm page_rest arrival broken rounds request ctype mark forms s fits a h l fuel
      room =
    let line : Bytes = codes "--" ++ mark in
    let rb : Bytes = 13 ∷ 10 ∷ b'-' ∷ line in
    let body : Bytes = form_body (b'-' ∷ line) (map show_part forms) in
    form_multipart-run page_rest arrival broken rounds request ctype body
      (codes "boundary=" ++ b'-' ∷ mark) rb body [] (pos (length body))
      (some (reverse (map part_of forms))) s (rboundary_of-dash mark fits) l
      (body_loop-whole arrival broken rounds
        (length (line ++ (13 ∷ 10 ∷ shown rb (map show_part forms)))) body refl fuel)
      (mapped_parts-body page_rest (b'-') line (map show_part forms) (map part_of forms)
        ((omega arith, omega arith), ((omega arith, omega arith), ((omega arith, omega arith), a)))
        (IsForm-AllRead rb forms h) (omega (arith, room)))
