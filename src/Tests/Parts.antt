-- ===== src/Tests/Parts.antt =====
-- Forms in parts, src/main.c, on concrete bodies.
use gusher.Base.{
  ℕ, zero, suc, ◌<◌, ◌≡◌, refl, subst, Bytes, Bool, true, false, not, ◌&&◌, [], ◌∷◌, ◌++◌, some, ok,
  arith, is_lower, to_upper, is_digit, is_space, ltb, Bool-cases, ltb→lt, inl, inr, length, take,
  drop,
}
use gusher.CString.{codes, strcmp_zero, strcmp_zero_iff, strncmp_zero, split_at}
use gusher.Form.{strcasestr, strcasestr_loop, assq_ref, atoi, request_length, to_locale_string}
use gusher.Form.Search.{Stands}
use gusher.Multipart.{form_multipart}
use gusher.Multipart.Body.{form_body}
use gusher.Multipart.Boundary.{EndsFirst}
use gusher.Multipart.Header.{FormPart, show_part, IsPart}
use gusher.Multipart.Whole.{part_of, form_multipart-IsForm}
use gusher.Request.{Request, string}

abbrev upload : FormPart
upload = record {
  name = codes "doc";
  filename = some (codes "a.txt");
  others = codes "Content-Type: text/plain" ∷ [];
  content = codes "1" ++ 10 ∷ 0 ∷ [];
}

upload-IsPart : IsPart upload
unfolding strcasestr strcasestr_loop to_upper is_lower
upload-IsPart = ground arith

-- Whether a text does not stand at any of the first places.
abbrev absent : Bytes → Bytes → ℕ → Bool
absent mem rb zero = true
absent mem rb (suc n) = not (strcmp_zero (take (length rb) (drop n mem)) rb) && absent mem rb n

absent-Stands : (mem rb : Bytes) (n q : ℕ) → absent mem rb n ≡ true → q < n → ¬ Stands mem q rb
absent-Stands mem rb zero q e l = elim l [ ]
absent-Stands mem rb (suc n) q e l = elim (Bool-cases (ltb q n)) [
  | inl less ↦ absent-Stands mem rb n q (ground arith) (ltb→lt q n less)
  | inr last ↦ λ stands.
      let same : q ≡ n = ground arith in
      let hit : strcmp_zero (take (length rb) (drop n mem)) rb ≡ true =
        (strcmp_zero_iff (take (length rb) (drop n mem)) rb).1
          (subst (λ k. Stands mem k rb) same stands) in
      ground arith
]

-- The boundary's line, `----B`.
abbrev line : Bytes
line = codes "---B"

abbrev body : Bytes
body = form_body (b'-' ∷ line) (show_part upload ∷ [])

upload-EndsFirst : EndsFirst (show_part upload) (13 ∷ 10 ∷ b'-' ∷ line)
unfolding strcmp_zero
upload-EndsFirst q l =
    absent-Stands (show_part upload ++ 13 ∷ 10 ∷ b'-' ∷ line) (13 ∷ 10 ∷ b'-' ∷ line)
      (length (show_part upload)) q refl l

abbrev posting : Request
posting = (codes "content-length", string (codes "111")) ∷ []

form_multipart-IsForm_example :
    form_multipart
      (λ n. 4000)
      (λ n. 7)
      false
      200
      posting
      (codes "multipart/form-data; boundary=--B")
      body
    ≡ ok (some (part_of upload ∷ []), [])
unfolding strcmp_zero strncmp_zero request_length assq_ref atoi is_digit is_space split_at
    to_locale_string
form_multipart-IsForm_example =
    form_multipart-IsForm (λ n. 4000) (λ n. 7) false 200 posting
      (codes "multipart/form-data; boundary=--B") (codes "-B") (upload ∷ []) refl (omega arith)
      (omega arith) ((upload-IsPart, upload-EndsFirst), tt) refl (ground arith) (ground arith)
