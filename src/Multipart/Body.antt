-- ===== src/Multipart/Body.antt =====
-- `form_multipart` of src/main.c on a whole body.
use gusher.Base.{
  ℕ, zero, suc, ◌+◌, ◌-◌, ◌<◌, ◌≤◌, ◌≡◌, refl, sym, ap, ◌∙◌, Bytes, List, [], ◌∷◌, ◌++◌,
  append_assoc, append-nil, reverse, length, length-append, take, drop, take-drop, All-append, some,
  ok, arith, ltb, Bool, ℤ, pos, minus, length-drop, Bool-cases, ltb→lt, inl, inr,
}
use gusher.Buffer.{index}
use gusher.Buffer.Border.{Avoids, index-hit}
use gusher.Form.{blank, Arrival, read_size}
use gusher.Multipart.{body_loop, parts_loop, mapped_parts}
use gusher.Request.{not_null, Part}
use gusher.Multipart.Loop.{shown, AllRead, end_of, parts_loop-shown}

-- The body of a form: the boundary's first line, and the parts.
abbrev pub form_body : Bytes → List Bytes → Bytes
form_body boundary parts = boundary ++ (13 ∷ 10 ∷ shown (13 ∷ 10 ∷ boundary) parts)

length-shown : (rb : Bytes) (parts : List Bytes) → length parts ≤ length (shown rb parts)
length-shown rb [] = omega arith
length-shown rb (p ∷ parts) = omega (
  arith,
  length-shown rb parts,
  length-append p (rb ++ (end_of parts ++ 10 ∷ shown rb parts)),
  length-append rb (end_of parts ++ 10 ∷ shown rb parts),
  length-append (end_of parts) (10 ∷ shown rb parts),
)

mapped_parts-loop :
    (page_rest : ℕ → ℕ) (rb : Bytes) (c : ℕ) (file : Bytes) (eol : ℕ) (query : List Part)
    → index (c ∷ (file ++ blank (page_rest (length (c ∷ file))))) 0 10 ≡ ok (some eol)
    → parts_loop
        (suc (length (c ∷ file)))
        (c ∷ (file ++ blank (page_rest (length (c ∷ file)))))
        (suc eol)
        (length (c ∷ file))
        rb
        []
      ≡ ok query
    → mapped_parts page_rest rb (c ∷ file) ≡ ok (some query)
unfolding mapped_parts not_null
mapped_parts-loop page_rest rb c file eol query i e = rw (mapped_parts, i, e) refl

-- The parts of a body that was mapped.
pub mapped_parts-body :
    (page_rest : ℕ → ℕ) (c : ℕ) (boundary : Bytes) (parts : List Bytes) (values : List Part)
    → Avoids 10 (c ∷ boundary)
    → AllRead (13 ∷ 10 ∷ c ∷ boundary) parts values
    → length (c ∷ boundary) + 2 ≤ page_rest (length (form_body (c ∷ boundary) parts))
    → mapped_parts page_rest (13 ∷ 10 ∷ c ∷ boundary) (form_body (c ∷ boundary) parts)
      ≡ ok (some (reverse values))
mapped_parts-body page_rest c boundary parts values a h room =
    let line : Bytes = c ∷ boundary in
    let rb : Bytes = 13 ∷ 10 ∷ line in
    let file : Bytes = boundary ++ (13 ∷ 10 ∷ shown rb parts) in
    let n : ℕ = page_rest (length (c ∷ file)) in
    let rest : Bytes = shown rb parts ++ blank n in
    let pre : Bytes = line ++ 13 ∷ 10 ∷ [] in
    let map : Bytes = c ∷ (file ++ blank n) in
    let opened : map ≡ line ++ 13 ∷ 10 ∷ rest =
      append_assoc line (13 ∷ 10 ∷ shown rb parts) (blank n) in
    let first : index map 0 10 ≡ ok (some (0 + length (line ++ 13 ∷ []))) =
      index-hit map [] 0 10 (line ++ 13 ∷ []) rest
        (opened ∙ sym (append_assoc line (13 ∷ []) (10 ∷ rest))) refl
        (All-append _ line (13 ∷ []) a (omega arith)) in
    let shape : map ≡ pre ++ rest = opened ∙ sym (append_assoc line (13 ∷ 10 ∷ []) rest) in
    let cursor : suc (0 + length (line ++ 13 ∷ [])) ≡ length pre =
      omega (arith, length-append line (13 ∷ []), length-append line (13 ∷ 10 ∷ [])) in
    let field : length (c ∷ file) ≡ length (shown rb parts) + (length line + 2) =
      omega (arith, length-append boundary (13 ∷ 10 ∷ shown rb parts)) in
    mapped_parts-loop page_rest rb c file (0 + length (line ++ 13 ∷ [])) (reverse values) first (
      ap
        (λ m.
          parts_loop (suc (length (c ∷ file))) m (suc (0 + length (line ++ 13 ∷ [])))
            (length (c ∷ file)) rb [])
        shape
      ∙ ap (λ k. parts_loop (suc (length (c ∷ file))) (pre ++ rest) k (length (c ∷ file)) rb [])
          cursor
      ∙ ap (λ k. parts_loop (suc (length (c ∷ file))) (pre ++ rest) (length pre) k rb []) field
      ∙ parts_loop-shown (suc (length (c ∷ file))) pre parts values (10 ∷ line) n (length line + 2)
          [] (omega (arith, length-shown rb parts)) room h)

-- What one read gives.
abbrev got : Arrival → ℕ → Bytes → ℕ
got arrival c pending = read_size arrival 4096 (length (c ∷ pending))

body_loop-last :
    (arrival : Arrival) (broken : Bool) (f : ℕ) (left : ℤ) (c : ℕ) (pending : Bytes)
    → minus left (got arrival c pending) ≡ pos 0
    → body_loop arrival broken (suc f) left (c ∷ pending)
      ≡ ok (take (got arrival c pending) (c ∷ pending), drop (got arrival c pending) (c ∷ pending))
unfolding body_loop
body_loop-last arrival broken f left c pending m = rw (body_loop, m) refl

body_loop-more :
    (arrival : Arrival) (broken : Bool) (f : ℕ) (left : ℤ) (c : ℕ) (pending : Bytes)
    → (more : ℕ) (file rest : Bytes) → minus left (got arrival c pending) ≡ pos (suc more)
    → body_loop arrival broken f (pos (suc more)) (drop (got arrival c pending) (c ∷ pending))
      ≡ ok (file, rest)
    → body_loop arrival broken (suc f) left (c ∷ pending)
      ≡ ok (take (got arrival c pending) (c ∷ pending) ++ file, rest)
unfolding body_loop
body_loop-more arrival broken f left c pending more file rest m r = rw (body_loop, m, r) refl

drop-all : (n : ℕ) (xs : Bytes) → length xs ≤ n → drop n xs ≡ []
drop-all zero [] h = refl
drop-all zero (x ∷ xs) h = elim h [ ]
drop-all (suc n) [] h = refl
drop-all (suc n) (x ∷ xs) h = drop-all n xs (omega arith)

-- A body that comes whole is read whole, in pieces of any size.
pub body_loop-whole :
    (arrival : Arrival) (broken : Bool) (f left : ℕ) (pending : Bytes)
    → length pending ≡ suc left
    → suc left ≤ f
    → body_loop arrival broken f (pos (suc left)) pending ≡ ok (pending, [])
body_loop-whole arrival broken (suc f) left (c ∷ pending) h l =
    let n : ℕ = read_size arrival 4096 (length (c ∷ pending)) in
    let one : 1 ≤ n = ground arith in
    let most : n ≤ suc left = ground arith in
    let all : take n (c ∷ pending) ++ drop n (c ∷ pending) ≡ c ∷ pending =
      take-drop n (c ∷ pending) in
    let rest : length (drop n (c ∷ pending)) ≡ suc left - n =
      length-drop n (c ∷ pending) ∙ ap (λ k. k - n) h in
    elim (Bool-cases (ltb n (suc left))) [
      | inl less ↦
          let below : n < suc left = ltb→lt n (suc left) less in
          body_loop-more arrival broken f (pos (suc left)) c pending (left - n)
            (drop n (c ∷ pending)) [] (ground arith)
            (body_loop-whole arrival broken f (left - n) (drop n (c ∷ pending)) (omega arith)
              (omega arith))
          ∙ ap (λ s. ok (s, [])) all
      | inr last ↦
          let none_left : drop n (c ∷ pending) ≡ [] = drop-all n (c ∷ pending) (ground arith) in
          body_loop-last arrival broken f (pos (suc left)) c pending (ground arith)
          ∙ ap (λ rest. ok (take n (c ∷ pending), rest)) none_left
          ∙ ap (λ s. ok (s, []))
              (sym (append-nil (take n (c ∷ pending)))
                ∙ ap (λ rest. take n (c ∷ pending) ++ rest) (sym none_left)
                ∙ all)
    ]
body_loop-whole arrival broken f left [] h l = ground arith
body_loop-whole arrival broken zero left (c ∷ pending) h l = elim l [ ]
