-- ===== src/Multipart/Loop.antt =====
-- The loop of `form_multipart` over the parts of a body, src/main.c.
use mathlib.Core.List.{reverse_aux}
use gusher.Base.{
  ℕ, zero, suc, ◌+◌, ◌-◌, ◌<◌, ◌≤◌, ◌≡◌, refl, sym, ap, subst, ◌∙◌, Bytes, List, [], ◌∷◌, ◌++◌,
  append_assoc, length, length-append, take, drop, drop-append, take-append, none, some, ok, arith,
}
use gusher.Buffer.{store, index}
use gusher.Buffer.Border.{Avoids, store_at, index-hit}
use gusher.Form.{memscan, blank}
use gusher.Form.Body.{length-blank}
use gusher.Multipart.{process_chunk, size_minus, parts_loop}
use gusher.Multipart.Boundary.{EndsFirst, memscan-part, memscan-blank}
use gusher.Request.{not_null, Part}

-- The end of a boundary's line: `--` behind the last part.
abbrev pub end_of : List Bytes → Bytes
end_of [] = b'-' ∷ b'-' ∷ 13 ∷ []
end_of (p ∷ parts) = 13 ∷ []

-- Parts, each with the boundary behind it.
abbrev pub shown : Bytes → List Bytes → Bytes
shown rb [] = []
shown rb (p ∷ parts) = p ++ (rb ++ (end_of parts ++ 10 ∷ shown rb parts))

-- The boundary is not in a part, and the part can be read.
abbrev pub AllRead : Bytes → List Bytes → List Part → Type 0
AllRead rb [] [] = Unit
AllRead rb (p ∷ parts) (v ∷ values) =
    EndsFirst p rb × (process_chunk p ≡ ok v) × AllRead rb parts values
AllRead rb _ _ = ⊥

end_of-Avoids : (parts : List Bytes) → Avoids 10 (end_of parts)
end_of-Avoids [] = omega arith
end_of-Avoids (p ∷ parts) = omega arith

size_minus-le : (a b c : ℕ) → a ≡ b + c → size_minus a b ≡ c
size_minus-le a b c h = ground arith

-- One round.
parts_loop-step :
    (f : ℕ) (mem next : Bytes) (cursor field stop eol : ℕ) (rb : Bytes) (value : Part)
    (query : List Part)
    → memscan mem cursor field rb ≡ ok (some stop)
    → store mem stop 0 ≡ ok next
    → process_chunk (take (stop - cursor) (drop cursor next)) ≡ ok value
    → index next (stop + length rb) 10 ≡ ok (some eol)
    → parts_loop (suc f) mem cursor field rb query
      ≡ parts_loop f next (suc eol) (size_minus field (suc eol - cursor)) rb (value ∷ query)
unfolding parts_loop not_null
parts_loop-step f mem next cursor field stop eol rb value query m s c i =
    rw (parts_loop, m, s, c, i) refl

behind_part :
    (p rb end sh pad : Bytes)
    → (p ++ (rb ++ (end ++ 10 ∷ sh))) ++ pad ≡ p ++ (rb ++ (end ++ 10 ∷ (sh ++ pad)))
behind_part p rb end sh pad =
    append_assoc p (rb ++ (end ++ 10 ∷ sh)) pad
    ∙ ap (p ++◌)
        (append_assoc rb (end ++ 10 ∷ sh) pad ∙ ap (rb ++◌) (append_assoc end (10 ∷ sh) pad))

-- The memory once the part's end is marked, and what the code does there.
parts_loop-part :
    (f : ℕ) (pre p s end rest : Bytes) (field : ℕ) (value : Part) (query : List Part)
    → EndsFirst p (13 ∷ s)
    → process_chunk p ≡ ok value
    → Avoids 10 end
    → length p + suc (length s) ≤ field
    → length pre + field ≤ length (pre ++ (p ++ (13 ∷ s ++ (end ++ 10 ∷ rest))))
    → (front : Bytes) × (length front ≡ length pre + length p + suc (length s) + suc (length end))
      × (parts_loop
            (suc f)
            (pre ++ (p ++ (13 ∷ s ++ (end ++ 10 ∷ rest))))
            (length pre)
            field
            (13 ∷ s)
            query
          ≡ parts_loop f
              (front ++ rest)
              (length front)
              (size_minus field (length p + suc (length s) + suc (length end)))
              (13 ∷ s)
              (value ∷ query))
parts_loop-part f pre p s end rest field value query e c a l fits =
    let mem : Bytes = pre ++ (p ++ (13 ∷ s ++ (end ++ 10 ∷ rest))) in
    let stop : ℕ = length pre + length p in
    let next : Bytes = (pre ++ p) ++ 0 ∷ (s ++ (end ++ 10 ∷ rest)) in
    let front : Bytes = (pre ++ p) ++ 0 ∷ (s ++ (end ++ 10 ∷ [])) in
    let eol : ℕ = stop + suc (length s) + length end in
    let stored : store mem stop 0 ≡ ok next =
      store_at mem (pre ++ p) 13 (s ++ (end ++ 10 ∷ rest)) stop 0
        (sym (append_assoc pre p (13 ∷ s ++ (end ++ 10 ∷ rest))))
        (omega (arith, length-append pre p)) in
    let count : stop - length pre ≡ length p = omega arith in
    let part : take (stop - length pre) (drop (length pre) next) ≡ p =
      ap (λ k. take k (drop (length pre) next)) count
      ∙ ap (take (length p)) (
          ap (drop (length pre)) (append_assoc pre p (0 ∷ (s ++ (end ++ 10 ∷ rest))))
          ∙ drop-append pre (p ++ 0 ∷ (s ++ (end ++ 10 ∷ rest))))
      ∙ take-append p (0 ∷ (s ++ (end ++ 10 ∷ rest))) in
    let line : index next (stop + suc (length s)) 10 ≡ ok (some eol) =
      index-hit next ((pre ++ p) ++ 0 ∷ s) (stop + suc (length s)) 10 end rest
        (sym (append_assoc (pre ++ p) (0 ∷ s) (end ++ 10 ∷ rest)))
        (omega (arith, length-append (pre ++ p) (0 ∷ s), length-append pre p)) a in
    let size : length front ≡ length pre + length p + suc (length s) + suc (length end) = omega (
      arith,
      length-append (pre ++ p) (0 ∷ (s ++ (end ++ 10 ∷ []))),
      length-append pre p,
      length-append s (end ++ 10 ∷ []),
      length-append end (10 ∷ []),
    ) in
    let whole : next ≡ front ++ rest = sym (
      append_assoc (pre ++ p) (0 ∷ (s ++ (end ++ 10 ∷ []))) rest
      ∙ ap (λ t. (pre ++ p) ++ 0 ∷ t)
          (append_assoc s (end ++ 10 ∷ []) rest ∙ ap (s ++◌) (append_assoc end (10 ∷ []) rest))) in
    let cursor : suc eol ≡ length front = omega arith in
    let used : suc eol - length pre ≡ length p + suc (length s) + suc (length end) = omega arith in
    (
      front,
      size,
      parts_loop-step f mem next (length pre) field stop eol (13 ∷ s) value query
            (memscan-part pre p (13 ∷ s) (end ++ 10 ∷ rest) field e l fits) stored
            (ap process_chunk part ∙ c) line
          ∙ ap (λ n. parts_loop f next (suc eol) (size_minus field n) (13 ∷ s) (value ∷ query)) used
          ∙ ap
              (λ m.
                parts_loop f m (suc eol)
                  (size_minus field (length p + suc (length s) + suc (length end))) (13 ∷ s)
                  (value ∷ query))
              whole
          ∙ ap
              (λ k.
                parts_loop f (front ++ rest) k
                  (size_minus field (length p + suc (length s) + suc (length end))) (13 ∷ s)
                  (value ∷ query))
              cursor,
    )

parts_loop-end :
    (f : ℕ) (mem : Bytes) (cursor field : ℕ) (rb : Bytes) (query : List Part)
    → memscan mem cursor field rb ≡ ok none
    → parts_loop (suc f) mem cursor field rb query ≡ ok query
unfolding parts_loop
parts_loop-end f mem cursor field rb query m = rw (parts_loop, m) refl

-- The loop gives each part's value, the last first.
pub parts_loop-shown :
    (f : ℕ) (pre : Bytes) (parts : List Bytes) (values : List Part) (s : Bytes) (n extra : ℕ)
    → (query : List Part) → length parts < f
    → extra ≤ n
    → AllRead (13 ∷ s) parts values
    → parts_loop f
        (pre ++ (shown (13 ∷ s) parts ++ blank n))
        (length pre)
        (length (shown (13 ∷ s) parts) + extra)
        (13 ∷ s)
        query
      ≡ ok (reverse_aux values query)
parts_loop-shown (suc f) pre [] [] s n extra query l x h =
    parts_loop-end f (pre ++ blank n) (length pre) (0 + extra) (13 ∷ s) query
      (memscan-blank pre n (0 + extra) 12 s (omega arith))
parts_loop-shown (suc f) pre (p ∷ parts) (v ∷ values) s n extra query l x (e, c, h) =
    let rb : Bytes = 13 ∷ s in
    let rest : Bytes = shown rb parts ++ blank n in
    let field : ℕ = length (shown rb (p ∷ parts)) + extra in
    let used : ℕ = length p + suc (length s) + suc (length (end_of parts)) in
    let size : length (shown rb (p ∷ parts)) ≡ used + length (shown rb parts) = omega (
      arith,
      length-append p (rb ++ (end_of parts ++ 10 ∷ shown rb parts)),
      length-append s (end_of parts ++ 10 ∷ shown rb parts),
      length-append (end_of parts) (10 ∷ shown rb parts),
    ) in
    let same : shown rb (p ∷ parts) ++ blank n ≡ p ++ (rb ++ (end_of parts ++ 10 ∷ rest)) =
      behind_part p rb (end_of parts) (shown rb parts) (blank n) in
    let fits : length pre + field ≤ length (pre ++ (p ++ (rb ++ (end_of parts ++ 10 ∷ rest)))) =
      subst (λ m. length pre + field ≤ length (pre ++ m)) same
        (omega (
          arith,
          length-append pre (shown rb (p ∷ parts) ++ blank n),
          length-append (shown rb (p ∷ parts)) (blank n),
          length-blank n,
        )) in
    let (front, place, run) =
      parts_loop-part f pre p s (end_of parts) rest field v query e c (end_of-Avoids parts)
        (omega arith) fits in
    ap (λ m. parts_loop (suc f) (pre ++ m) (length pre) field rb query) same
    ∙ run
    ∙ ap (λ k. parts_loop f (front ++ rest) (length front) k rb (v ∷ query))
        (size_minus-le field used (length (shown rb parts) + extra) (omega arith))
    ∙ parts_loop-shown f front parts values s n extra (v ∷ query) (omega arith) x h
parts_loop-shown zero pre parts values s n extra query l x h = elim l [ ]
parts_loop-shown (suc f) pre [] (v ∷ values) s n extra query l x h = elim h [ ]
parts_loop-shown (suc f) pre (p ∷ parts) [] s n extra query l x h = elim h [ ]
