-- ===== src/Multipart/Header.antt =====
-- The headers of a part as browsers write them, and what `chunk_line` of src/main.c reads there.
use gusher.Base.{
  ℕ, zero, suc, ◌+◌, ◌≡◌, ◌≢◌, refl, sym, ap, ◌∙◌, false, Bytes, List, [], ◌∷◌, ◌++◌, append_assoc,
  length, length-append, drop, drop_behind, All, ◌==◌, Option, none, some, ok, is_lower, to_upper,
  arith,
}
use gusher.CString.{codes, split_at}
use gusher.Form.{strcasestr, strcasestr_loop}
use gusher.Multipart.{quoted, Head, or_before, chunk_line}

-- A part as it is posted: the field's name, the file's name where there is one, the lines of the
-- other headers, and the content.
pub record FormPart : Type 0 where
  pub name : Bytes
  pub filename : Option Bytes
  pub others : List Bytes
  pub content : Bytes

abbrev pub file_attr : Option Bytes → Bytes
file_attr none = []
file_attr (some name) = codes "; filename=\"" ++ (name ++ codes "\"")

abbrev pub disposition : FormPart → Bytes
disposition p =
    codes "Content-Disposition: form-data; name=\""
    ++ (p.name ++ (codes "\"" ++ file_attr p.filename))

-- Lines in front of a text.
abbrev pub lines : List Bytes → Bytes → Bytes
lines [] tail = tail
lines (line ∷ more) tail = line ++ (13 ∷ 10 ∷ lines more tail)

abbrev pub show_part : FormPart → Bytes
show_part p = lines (disposition p ∷ p.others) (13 ∷ 10 ∷ p.content)

abbrev pub IsLine : Bytes → Type 0
IsLine s = All (λ c. ((c == 0) ≡ false) × ((c == 10) ≡ false)) s

-- A name without NUL, newline, quote or semicolon.
abbrev pub IsName : Bytes → Type 0
IsName s =
    All
      (λ c.
        ((c == 0) ≡ false) × ((c == 10) ≡ false) × ((c == b'"') ≡ false) × ((c == b';') ≡ false))
      s

abbrev pub IsFileName : Option Bytes → Type 0
IsFileName none = Unit
IsFileName (some name) = IsName name

-- The line of another header.
abbrev pub IsOther : Bytes → Type 0
IsOther line = IsLine line × (line ≢ []) × (strcasestr line (codes "content-disposition") ≢ some 0)

abbrev pub IsPart : FormPart → Type 0
IsPart p = IsName p.name × IsFileName p.filename × All IsOther p.others

line_other :
    (line : Bytes) (head : Head) (at : Option ℕ)
    → strcasestr line (codes "content-disposition") ≡ at
    → at ≢ some 0
    → chunk_line line head ≡ ok head
unfolding chunk_line
line_other line head none e h = rw (chunk_line, e) refl
line_other line head (some (suc k)) e h = rw (chunk_line, e) refl
line_other line head (some zero) e h = absurd (h refl)

pub chunk_line-other :
    (line : Bytes) (head : Head)
    → strcasestr line (codes "content-disposition") ≢ some 0
    → chunk_line line head ≡ ok head
chunk_line-other line head h =
    line_other line head (strcasestr line (codes "content-disposition")) refl h

split_at-name :
    (name rest : Bytes) → IsName name → split_at (b'"') (name ++ b'"' ∷ rest) ≡ some (name, rest)
unfolding split_at
split_at-name [] rest h = refl
split_at-name (c ∷ name) rest h = rw (split_at, h.0.2, split_at-name name rest h.1) refl

upper_semicolon : (c : ℕ) → (c == b';') ≡ false → (to_upper c == to_upper (b';')) ≡ false
unfolding to_upper is_lower
upper_semicolon c h = ground arith

-- The search for `filename` passes over a name.
strcasestr_loop-name :
    (p name rest : Bytes) (i : ℕ)
    → IsName name
    → strcasestr_loop (b';' ∷ p) (name ++ rest) i (b';' ∷ p) none
      ≡ strcasestr_loop (b';' ∷ p) rest (i + length name) (b';' ∷ p) none
unfolding strcasestr_loop
strcasestr_loop-name p [] rest i h =
    ap (λ k. strcasestr_loop (b';' ∷ p) rest k (b';' ∷ p) none) (omega arith)
strcasestr_loop-name p (c ∷ name) rest i h =
    rw (strcasestr_loop, upper_semicolon c h.0.3)
      (strcasestr_loop-name p name rest (suc i) h.1
        ∙ ap (λ k. strcasestr_loop (b';' ∷ p) rest k (b';' ∷ p) none) (omega arith))

quoted-some :
    (line field before behind name rest : Bytes) (k : ℕ)
    → strcasestr line field ≡ some k
    → split_at (b'"') (drop k line) ≡ some (before, behind)
    → split_at (b'"') behind ≡ some (name, rest)
    → quoted line field ≡ ok (some name)
quoted-some line field before behind name rest k e d n = rw (quoted, e, d, n) refl

quoted-none : (line field : Bytes) → strcasestr line field ≡ none → quoted line field ≡ ok none
quoted-none line field e = rw (quoted, e) refl

-- What stands in front of a field's name.
abbrev pub front : Bytes
front = codes "Content-Disposition: form-data; name=\""

quoted-name :
    (name rest : Bytes)
    → IsName name
    → quoted (front ++ (name ++ b'"' ∷ rest)) (codes "; name=\"") ≡ ok (some name)
unfolding strcasestr strcasestr_loop to_upper is_lower split_at
quoted-name name rest h =
    quoted-some (front ++ (name ++ b'"' ∷ rest)) (codes "; name=\"") (codes "; name=")
      (name ++ b'"' ∷ rest) name rest 30 refl refl (split_at-name name rest h)

-- The search for a file's name, from the field's name on.
strcasestr-filename :
    (name rest : Bytes)
    → IsName name
    → strcasestr (front ++ (name ++ b'"' ∷ rest)) (codes "; filename=\"")
      ≡ strcasestr_loop
          (codes "; filename=\"")
          rest
          (suc (38 + length name))
          (codes "; filename=\"")
          none
unfolding strcasestr strcasestr_loop to_upper is_lower
strcasestr-filename name rest h =
    strcasestr_loop-name (codes " filename=\"") name (b'"' ∷ rest) 38 h

quoted-filename :
    (name file : Bytes)
    → IsName name
    → IsName file
    → quoted (front ++ (name ++ b'"' ∷ file_attr (some file))) (codes "; filename=\"")
      ≡ ok (some file)
unfolding strcasestr_loop to_upper is_lower split_at
quoted-filename name file h f =
    let line : Bytes = front ++ (name ++ b'"' ∷ file_attr (some file)) in
    let before : Bytes = front ++ (name ++ codes "\"") in
    let same : before ++ file_attr (some file) ≡ line =
      ap (front ++◌) (append_assoc name (codes "\"") (file_attr (some file))) in
    quoted-some line (codes "; filename=\"") (codes "; filename=") (file ++ b'"' ∷ []) file []
      (suc (38 + length name)) (strcasestr-filename name (file_attr (some file)) h)
      (ap (λ line. split_at (b'"') (drop (suc (38 + length name)) line)) (sym same)
        ∙ ap (split_at (b'"')) (
            drop_behind before (file_attr (some file)) (suc (38 + length name))
              (omega (arith, length-append name (codes "\"")))))
      (split_at-name file [] f)

quoted-file :
    (name : Bytes) (filename : Option Bytes)
    → IsName name
    → IsFileName filename
    → quoted (front ++ (name ++ b'"' ∷ file_attr filename)) (codes "; filename=\"") ≡ ok filename
unfolding strcasestr_loop
quoted-file name none h f =
    quoted-none (front ++ (name ++ b'"' ∷ [])) (codes "; filename=\"")
      (strcasestr-filename name [] h)
quoted-file name (some file) h f = quoted-filename name file h f

strcasestr-disposition :
    (rest : Bytes) → strcasestr (front ++ rest) (codes "content-disposition") ≡ some 0
unfolding strcasestr strcasestr_loop to_upper is_lower
strcasestr-disposition rest = refl

pub chunk_line-disposition :
    (name : Bytes) (filename : Option Bytes) (head : Head)
    → IsName name
    → IsFileName filename
    → chunk_line (front ++ (name ++ b'"' ∷ file_attr filename)) head
      ≡ ok (record { key = some name; orig_file = or_before filename head.orig_file })
unfolding chunk_line
chunk_line-disposition name filename head h f =
    rw
      (
        chunk_line,
        strcasestr-disposition (name ++ b'"' ∷ file_attr filename),
        quoted-name name (file_attr filename) h,
        quoted-file name filename h f,
      )
      refl
