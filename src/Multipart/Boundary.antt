-- ===== src/Multipart/Boundary.antt =====
-- Where `memscan` of src/main.c finds the boundary of a form.
use gusher.Base.{
  ℕ, zero, suc, ◌+◌, ◌-◌, ◌<◌, ◌≤◌, ◌≡◌, refl, sym, ap, subst, ◌∙◌, Bytes, [], ◌∷◌, ◌++◌,
  append_assoc, length, length-append, take, drop, drop-append, take-append, Option, none, some, ok,
  arith, ltb, Bool-cases, ltb→lt, inl, inr, length-drop,
}
use gusher.Form.{memscan, blank}
use gusher.Form.Body.{length-blank}
use gusher.Form.Search.{Stands, IsFirst, memscan-IsFirst}

drop-plus : (xs ys : Bytes) (q : ℕ) → drop (length xs + q) (xs ++ ys) ≡ drop q ys
drop-plus [] ys q = let same : 0 + q ≡ q = omega arith in ap (λ k. drop k ys) same
drop-plus (x ∷ xs) ys q =
    let same : length (x ∷ xs) + q ≡ suc (length xs + q) = omega arith in
    ap (λ k. drop k (x ∷ (xs ++ ys))) same ∙ drop-plus xs ys q

take-inside : (n : ℕ) (xs ys : Bytes) → n ≤ length xs → take n (xs ++ ys) ≡ take n xs
take-inside zero xs ys h = refl
take-inside (suc n) [] ys h = elim h [ ]
take-inside (suc n) (x ∷ xs) ys h = ap (◌∷◌ x) (take-inside n xs ys (omega arith))

drop-inside : (q : ℕ) (xs ys : Bytes) → q ≤ length xs → drop q (xs ++ ys) ≡ drop q xs ++ ys
drop-inside zero xs ys h = refl
drop-inside (suc q) [] ys h = elim h [ ]
drop-inside (suc q) (x ∷ xs) ys h = drop-inside q xs ys (omega arith)

-- The boundary stands first at the end of the part.
abbrev pub EndsFirst : Bytes → Bytes → Type 0
EndsFirst part rb = (q : ℕ) → q < length part → ¬ Stands (part ++ rb) q rb

Stands-end :
    (pre part rb rest : Bytes)
    → Stands (pre ++ (part ++ (rb ++ rest))) (length pre + length part) rb
Stands-end pre part rb rest =
    ap (take (length rb))
      (drop-plus pre (part ++ (rb ++ rest)) (length part) ∙ drop-append part (rb ++ rest))
    ∙ take-append rb rest

Stands-inside :
    (pre part rb rest : Bytes) (q : ℕ)
    → q ≤ length part
    → Stands (pre ++ (part ++ (rb ++ rest))) (length pre + q) rb
    → Stands (part ++ rb) q rb
Stands-inside pre part rb rest q l h =
    let inside : q ≤ length (part ++ rb) = omega (arith, length-append part rb) in
    let room : length rb ≤ length (drop q (part ++ rb)) =
      omega (arith, length-drop q (part ++ rb), length-append part rb) in
    let same : take (length rb) (drop (length pre + q) (pre ++ (part ++ (rb ++ rest))))
        ≡ take (length rb) (drop q (part ++ rb)) =
      ap (take (length rb)) (
        drop-plus pre (part ++ (rb ++ rest)) q
        ∙ ap (drop q) (sym (append_assoc part rb rest))
        ∙ drop-inside q (part ++ rb) rest inside)
      ∙ take-inside (length rb) (drop q (part ++ rb)) rest room in
    sym same ∙ h

first_at_end :
    (pre part rb rest : Bytes) (field : ℕ) (found : Option ℕ)
    → EndsFirst part rb
    → length part + length rb ≤ field
    → IsFirst (pre ++ (part ++ (rb ++ rest))) (length pre) field rb found
    → found ≡ some (length pre + length part)
first_at_end pre part rb rest field none e l h =
    absurd (h (length pre + length part) (omega arith) (omega arith) (Stands-end pre part rb rest))
first_at_end pre part rb rest field (some p) e l (from, fits, stands, first) =
    let end : ℕ = length pre + length part in
    elim (Bool-cases (ltb end p)) [
      | inl above ↦
          absurd (first end (omega arith) (ltb→lt end p above) (Stands-end pre part rb rest))
      | inr low ↦ elim (Bool-cases (ltb p end)) [
        | inl below ↦
            let lower : p < end = ltb→lt p end below in
            let place : length pre + (p - length pre) ≡ p = omega arith in
            absurd (
              e (p - length pre) (omega arith) (
                Stands-inside pre part rb rest (p - length pre) (omega arith)
                  (subst (λ k. Stands (pre ++ (part ++ (rb ++ rest))) k rb) (sym place) stands)))
        | inr high ↦ ap some (ground arith)
      ]
    ]

pub memscan-part :
    (pre part rb rest : Bytes) (field : ℕ)
    → EndsFirst part rb
    → length part + length rb ≤ field
    → length pre + field ≤ length (pre ++ (part ++ (rb ++ rest)))
    → memscan (pre ++ (part ++ (rb ++ rest))) (length pre) field rb
      ≡ ok (some (length pre + length part))
memscan-part pre part rb rest field e l fits =
    let (found, run, h) =
      memscan-IsFirst (pre ++ (part ++ (rb ++ rest))) (length pre) field rb fits in
    run ∙ ap ok (first_at_end pre part rb rest field found e l h)

-- Behind the file there are zeros, and no boundary.
blank_head : (n : ℕ) (c : ℕ) (s : Bytes) → take (suc (length s)) (blank n) ≡ suc c ∷ s → ⊥
blank_head zero c s h = ground arith
blank_head (suc n) c s h = ground arith

drop-blank : (q n : ℕ) → drop q (blank n) ≡ blank (n - q)
drop-blank zero n = let same : n ≡ n - 0 = omega arith in ap blank same
drop-blank (suc q) zero = let same : 0 ≡ 0 - suc q = omega arith in ap blank same
drop-blank (suc q) (suc n) =
    let same : n - q ≡ suc n - suc q = omega arith in drop-blank q n ∙ ap blank same

pub memscan-blank :
    (pre : Bytes) (n field c : ℕ) (s : Bytes)
    → field ≤ n
    → memscan (pre ++ blank n) (length pre) field (suc c ∷ s) ≡ ok none
memscan-blank pre n field c s l =
    let (found, run, h) =
      memscan-IsFirst (pre ++ blank n) (length pre) field (suc c ∷ s)
        (omega (arith, length-append pre (blank n), length-blank n)) in
    run ∙ ap ok (nothing found h)
  where
    nothing :
        (found : Option ℕ)
        → IsFirst (pre ++ blank n) (length pre) field (suc c ∷ s) found
        → found ≡ none
    nothing none h = refl
    nothing (some p) (from, fits, stands, first) =
        let place : length pre + (p - length pre) ≡ p = omega arith in
        absurd (
          blank_head (n - (p - length pre)) c s (
            ap (take (suc (length s))) (
              sym (
                ap (λ k. drop k (pre ++ blank n)) (sym place)
                ∙ drop-plus pre (blank n) (p - length pre)
                ∙ drop-blank (p - length pre) n))
            ∙ stands))
