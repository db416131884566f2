-- ===== src/Multipart/Chunk.antt =====
-- `process_chunk` of src/main.c on a part as browsers write it.
use gusher.Base.{
  ℕ, zero, suc, ◌<◌, ◌≤◌, ◌≡◌, refl, ap, ◌∙◌, Bytes, List, [], ◌∷◌, ◌++◌, length, length-append,
  All, All-append, Option, none, some, ok, arith,
}
use gusher.CString.{codes}
use gusher.Multipart.{
  line_end, strip_cr, Head, or_before, chunk_line, chunk_loop, payload_of, process_chunk,
}
use gusher.Multipart.Header.{
  FormPart, file_attr, disposition, lines, show_part, IsLine, IsName, IsFileName, IsOther, IsPart,
  front, chunk_line-other, chunk_line-disposition,
}

line_end-line :
    (s rest : Bytes) → IsLine s → line_end (s ++ (13 ∷ 10 ∷ rest)) ≡ some (s ++ 13 ∷ [], rest)
line_end-line [] rest h = refl
line_end-line (c ∷ s) rest h = rw (line_end, h.0.0, h.0.1, line_end-line s rest h.1) refl

strip_cr-line : (s : Bytes) → strip_cr (s ++ 13 ∷ []) ≡ s
strip_cr-line [] = refl
strip_cr-line (c ∷ []) = refl
strip_cr-line (c ∷ d ∷ s) = ap (◌∷◌ c) (strip_cr-line (d ∷ s))

chunk_loop-line :
    (f : ℕ) (c : ℕ) (s rest : Bytes) (head next : Head)
    → IsLine (c ∷ s)
    → chunk_line (c ∷ s) head ≡ ok next
    → chunk_loop (suc f) (c ∷ s ++ (13 ∷ 10 ∷ rest)) head ≡ chunk_loop f rest next
unfolding chunk_loop
chunk_loop-line f c s rest head next h e =
    rw (chunk_loop, line_end-line (c ∷ s) rest h, strip_cr-line (c ∷ s), e) refl

IsName-IsLine : (s : Bytes) → IsName s → IsLine s
IsName-IsLine [] h = tt
IsName-IsLine (c ∷ s) h = ((h.0.0, h.0.1), IsName-IsLine s h.1)

file_attr-IsLine : (filename : Option Bytes) → IsFileName filename → IsLine (file_attr filename)
file_attr-IsLine none f = tt
file_attr-IsLine (some name) f =
    All-append _ (codes "; filename=\"") (name ++ codes "\"") (ground arith)
      (All-append _ name (codes "\"") (IsName-IsLine name f) (ground arith))

disposition-IsLine : (p : FormPart) → IsPart p → IsLine (disposition p)
disposition-IsLine p h =
    All-append _ front (p.name ++ (codes "\"" ++ file_attr p.filename)) (ground arith) (
      All-append _ p.name (codes "\"" ++ file_attr p.filename) (IsName-IsLine p.name h.0)
        ((refl, refl), file_attr-IsLine p.filename h.1))

chunk_loop-others :
    (f : ℕ) (others : List Bytes) (content : Bytes) (head : Head)
    → length others < f
    → All IsOther others
    → chunk_loop f (lines others (13 ∷ 10 ∷ content)) head ≡ ok (head, content)
unfolding chunk_loop
chunk_loop-others (suc f) [] content head l h = refl
chunk_loop-others (suc f) ((c ∷ s) ∷ more) content head l h =
    chunk_loop-line f c s (lines more (13 ∷ 10 ∷ content)) head head h.0.0
      (chunk_line-other (c ∷ s) head h.0.2)
    ∙ chunk_loop-others f more content head (omega arith) h.1
chunk_loop-others (suc f) ([] ∷ more) content head l h = absurd (h.0.1 refl)
chunk_loop-others zero others content head l h = elim l [ ]

length-lines : (others : List Bytes) (tail : Bytes) → length others ≤ length (lines others tail)
length-lines [] tail = omega arith
length-lines (o ∷ more) tail =
    omega (arith, length-lines more tail, length-append o (13 ∷ 10 ∷ lines more tail))

or_before-none : (o : Option Bytes) → or_before o none ≡ o
or_before-none none = refl
or_before-none (some s) = refl

-- A part's value.
pub process_chunk-part :
    (p : FormPart)
    → IsPart p
    → process_chunk (show_part p)
      ≡ ok (record { key = some p.name; value = payload_of p.filename p.content })
unfolding process_chunk
process_chunk-part p h =
    let tail : Bytes = lines p.others (13 ∷ 10 ∷ p.content) in
    let enough : length p.others < length (show_part p) = omega (
      arith,
      length-lines p.others (13 ∷ 10 ∷ p.content),
      length-append (disposition p) (13 ∷ 10 ∷ tail),
    ) in
    let empty : Head = record { key = none; orig_file = none } in
    let next : Head = record { key = some p.name; orig_file = or_before p.filename none } in
    let run : chunk_loop (suc (length (show_part p))) (show_part p) empty ≡ ok (next, p.content) =
      chunk_loop-line (length (show_part p)) (b'C') _ tail empty next (disposition-IsLine p h)
        (chunk_line-disposition p.name p.filename empty h.0 h.1)
      ∙ chunk_loop-others (length (show_part p)) p.others p.content next enough h.2 in
    rw (process_chunk, run, or_before-none p.filename) refl
