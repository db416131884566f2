-- ===== src/Form/Search.antt =====
-- What `memscan` and `strcasestr` of src/main.c find.
use gusher.Base.{
  ℕ, zero, suc, ◌+◌, ◌≤◌, ◌<◌, ◌≡◌, refl, sym, ap, ◌∙◌, subst, Bool, true, false, Bytes, [], ◌∷◌,
  ◌++◌, append_assoc, append-nil, map, map-append, ◌==◌, ltb, leb, Option, none, some, ok, length,
  take, drop, length-append, to_upper, inl, inr, Bool-cases, ==_iff, some_injective, arith,
}
use gusher.CString.{strcmp_zero, strcmp_zero_iff}
use gusher.Form.{memcmp_zero, memscan, strcasestr_loop, strcasestr}

-- The needle stands at `p`.
abbrev pub Stands : Bytes → ℕ → Bytes → Type 0
Stands mem p needle = take (length needle) (drop p mem) ≡ needle

-- The first place among the `field` bytes from `pt` on, or none.
abbrev pub IsFirst : Bytes → ℕ → ℕ → Bytes → Option ℕ → Type 0
IsFirst mem pt field needle none =
    (p : ℕ) → pt ≤ p → p + length needle ≤ pt + field → ¬ Stands mem p needle
IsFirst mem pt field needle (some p) =
    (pt ≤ p)
    × (p + length needle ≤ pt + field)
    × Stands mem p needle
    × ((q : ℕ) → pt ≤ q → q < p → ¬ Stands mem q needle)

compared :
    (mem : Bytes) (pt : ℕ) (needle : Bytes)
    → pt + length needle ≤ length mem
    → memcmp_zero mem pt needle ≡ ok (strcmp_zero (take (length needle) (drop pt mem)) needle)
unfolding memcmp_zero
compared mem pt needle h =
    let inside : leb (pt + length needle) (length mem) ≡ true = ground arith in rw inside refl

-- One place further on, where the needle does not stand at `pt`.
later :
    (mem : Bytes) (pt field : ℕ) (needle : Bytes) (found : Option ℕ)
    → ¬ Stands mem pt needle
    → IsFirst mem (suc pt) field needle found
    → IsFirst mem pt (suc field) needle found
later mem pt field needle none miss h = λ p l r. elim (Bool-cases (pt == p)) [
  | inl q ↦ λ at. miss (subst (λ k. Stands mem k needle) (sym ((==_iff pt p).0 q)) at)
  | inr q ↦ h p (ground arith) (omega arith)
]
later mem pt field needle (some k) miss h = (
  omega (arith, h.0),
  omega (arith, h.1),
  h.2,
  λ q l r. elim (Bool-cases (pt == q)) [
    | inl e ↦ λ at. miss (subst (λ k. Stands mem k needle) (sym ((==_iff pt q).0 e)) at)
    | inr e ↦ h.3 q (ground arith) r
  ],
)

true_not_false : {b : Bool} → b ≡ true → b ≡ false → ⊥
true_not_false p q = cc

-- Where the bytes from pt on that are searched lie in the memory, memscan reads nothing outside
-- them and gives the first place where the needle stands, or nothing where it stands nowhere among
-- them.
pub memscan-IsFirst :
    (mem : Bytes) (pt field : ℕ) (needle : Bytes)
    → pt + field ≤ length mem
    → (found : Option ℕ) × (memscan mem pt field needle ≡ ok found)
      × IsFirst mem pt field needle found
unfolding memscan
memscan-IsFirst mem pt zero [] h = (
  some pt,
  rw (compared mem pt [] (omega arith)) refl,
  (omega arith, omega arith, refl, λ k l r. absurd (omega arith)),
)
memscan-IsFirst mem pt zero (x ∷ needle) h =
    let some_left : ltb 0 (length (x ∷ needle)) ≡ true = ground arith in
    (none, rw some_left refl, λ p l r. absurd (omega arith))
memscan-IsFirst mem pt (suc field) needle h = elim (Bool-cases (ltb (suc field) (length needle))) [
  | inl q ↦ (none, rw q refl, λ p l r. absurd (ground arith))
  | inr q ↦
      (let same = compared mem pt needle (ground arith) in
        elim (Bool-cases (strcmp_zero (take (length needle) (drop pt mem)) needle)) [
          | inl e ↦ (
            some pt,
            rw (q, same, e) refl,
            (
              omega arith,
              ground arith,
              (strcmp_zero_iff _ needle).0 e,
              λ k l r. absurd (omega arith),
            ),
          )
          | inr e ↦
              (let (found, run, first) = memscan-IsFirst mem (suc pt) field needle (omega arith) in
                let miss : ¬ Stands mem pt needle =
                  λ at. true_not_false ((strcmp_zero_iff _ needle).1 at) e in
                (found, rw (q, same, e) run, later mem pt field needle found miss first))
        ])
]

-- The letters of a text, without their case.
abbrev pub folded : Bytes → Bytes
folded = map to_upper

-- What stands from the anchor to the place reached is the needle's beginning, but for case.
IsAnchor : Bytes → Bytes → Option ℕ → Type 0
IsAnchor pre done none = done ≡ []
IsAnchor pre done (some k) =
    (front : Bytes) × (hit : Bytes) × (pre ≡ front ++ hit)
    × (k ≡ length front)
    × (folded hit ≡ folded done)

no-IsAnchor : (pre : Bytes) → IsAnchor pre [] none
unfolding IsAnchor
no-IsAnchor pre = refl

IsAnchor-grow :
    (pre done : Bytes) (anchor : Option ℕ) (a b : ℕ)
    → IsAnchor pre done anchor
    → to_upper a ≡ to_upper b
    → (k : ℕ) → k ≡ (elim anchor [ none ↦ length pre | some j ↦ j ])
    → IsAnchor (pre ++ a ∷ []) (done ++ b ∷ []) (some k)
unfolding IsAnchor
IsAnchor-grow pre done none a b h same k e = (pre, a ∷ [], refl, e, rw h (ap (λ x. x ∷ []) same))
IsAnchor-grow pre done (some j) a b (front, hit, m, l, f) same k e = (
  front,
  hit ++ a ∷ [],
  ap (λ x. x ++ a ∷ []) m ∙ append_assoc front hit (a ∷ []),
  e ∙ l,
  map-append to_upper hit (a ∷ []) ∙ rw (f, same) (sym (map-append to_upper done (b ∷ []))),
)

-- A place that the text and the letters found at it agree with.
Found : Bytes → Bytes → ℕ → Type 0
Found text needle k =
    (front : Bytes) × (hit : Bytes) × (rest : Bytes) × (text ≡ front ++ (hit ++ rest))
    × (k ≡ length front)
    × (folded hit ≡ folded needle)

Found-anchor :
    (needle s pre : Bytes) (anchor : Option ℕ) (k : ℕ)
    → IsAnchor pre needle anchor
    → anchor ≡ some k
    → Found (pre ++ s) needle k
unfolding IsAnchor Found
Found-anchor needle s pre none k a e = absurd cc
Found-anchor needle s pre (some j) k (front, hit, m, l, f) e =
    (front, hit, s, ap (λ x. x ++ s) m ∙ append_assoc front hit s, sym (some_injective e) ∙ l, f)

module _ (needle : Bytes) where
  strcasestr_loop-Found :
      (s pre done p : Bytes) (i : ℕ) (anchor : Option ℕ) (k : ℕ)
      → i ≡ length pre
      → needle ≡ done ++ p
      → IsAnchor pre done anchor
      → strcasestr_loop needle s i p anchor ≡ some k
      → Found (pre ++ s) needle k
  unfolding strcasestr_loop
  strcasestr_loop-Found s pre done [] i anchor k l n a e =
      Found-anchor needle s pre anchor k
        (subst (λ d. IsAnchor pre d anchor) (sym (append-nil done) ∙ sym n) a) e
  strcasestr_loop-Found [] pre done (b ∷ p) i anchor k l n a e = absurd cc
  strcasestr_loop-Found (c ∷ s) pre done (b ∷ p) i none k l n a e =
      let pre' = pre ++ c ∷ [] in
      let l' : suc i ≡ length pre' = omega (arith, l, length-append pre (c ∷ [])) in
      subst (λ t. Found t needle k) (append_assoc pre (c ∷ []) s)
        (elim (Bool-cases (to_upper c == to_upper b)) [
          | inl q ↦
              strcasestr_loop-Found s pre' (done ++ b ∷ []) p (suc i) (some i) k l'
                (n ∙ sym (append_assoc done (b ∷ []) p))
                (IsAnchor-grow pre done none c b a ((==_iff _ _).0 q) i l) (simp q at e)
          | inr q ↦
              strcasestr_loop-Found s pre' [] needle (suc i) none k l' refl (no-IsAnchor pre')
                (simp q at e)
        ])
  strcasestr_loop-Found (c ∷ s) pre done (b ∷ p) i (some j) k l n a e =
      let pre' = pre ++ c ∷ [] in
      let l' : suc i ≡ length pre' = omega (arith, l, length-append pre (c ∷ [])) in
      subst (λ t. Found t needle k) (append_assoc pre (c ∷ []) s)
        (elim (Bool-cases (to_upper c == to_upper b)) [
          | inl q ↦
              strcasestr_loop-Found s pre' (done ++ b ∷ []) p (suc i) (some j) k l'
                (n ∙ sym (append_assoc done (b ∷ []) p))
                (IsAnchor-grow pre done (some j) c b a ((==_iff _ _).0 q) j refl) (simp q at e)
          | inr q ↦
              strcasestr_loop-Found s pre' [] needle (suc i) none k l' refl (no-IsAnchor pre')
                (simp q at e)
        ])

-- Where strcasestr gives a place, the needle stands there but for the case of its letters.
pub strcasestr-folded :
    (haystack needle : Bytes) (k : ℕ)
    → strcasestr haystack needle ≡ some k
    → (front : Bytes) × (hit : Bytes) × (rest : Bytes) × (haystack ≡ front ++ (hit ++ rest))
      × (k ≡ length front)
      × (folded hit ≡ folded needle)
unfolding strcasestr Found IsAnchor
strcasestr-folded haystack needle k e =
    strcasestr_loop-Found needle haystack [] [] needle 0 (some 0) k refl refl
      ([], [], refl, refl, refl) e
