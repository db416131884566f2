-- ===== src/Template/Twice.antt =====
-- A template of src/template.c that is filled in two calls, the first a partial one.
use gusher.Base.{
  ◌≡◌, refl, sym, ap, subst, ◌∙◌, Bool, true, Bytes, List, [], ◌∷◌, ◌++◌, append_assoc, map, All,
  All-append, none, some, ok, ◌>>=◌, Option-cases, inl, inr, to_upper, Bool-cases, some_injective,
  arith,
}
use gusher.CString.{codes, strcmp_zero}
use gusher.Scheme.{Scm, boolean, string}
use gusher.Template.{TemplateSlot, find_slot, fill_template}
use gusher.Template.Fill.{Parts, ending, slot, show, value_of, filled, IsText, IsTemplate}
use gusher.Template.Slots.{alist, upcase, fill_alist}

upcase-append : (xs ys : List TemplateSlot) → upcase (xs ++ ys) ≡ upcase xs ++ upcase ys
upcase-append [] ys = refl
upcase-append (x ∷ xs) ys =
    ap (◌∷◌ (record x { token = map to_upper x.token })) (upcase-append xs ys)

upcase-IsText :
    (xs : List TemplateSlot)
    → All (λ s. IsText s.payload) xs
    → All (λ s. IsText s.payload) (upcase xs)
upcase-IsText [] h = tt
upcase-IsText (x ∷ xs) h = (h.0, upcase-IsText xs h.1)

find_slot-left :
    (xs ys : List TemplateSlot) (name v : Bytes)
    → find_slot xs name ≡ some v
    → find_slot (xs ++ ys) name ≡ some v
find_slot-left [] ys name v e = cc
find_slot-left (x ∷ xs) ys name v e = elim (Bool-cases (strcmp_zero name x.token)) [
  | inl q ↦ rw q (sym (rw q refl) ∙ e)
  | inr q ↦ rw q (find_slot-left xs ys name v (sym (rw q refl) ∙ e))
]

find_slot-right :
    (xs ys : List TemplateSlot) (name : Bytes)
    → find_slot xs name ≡ none
    → find_slot (xs ++ ys) name ≡ find_slot ys name
find_slot-right [] ys name e = refl
find_slot-right (x ∷ xs) ys name e = elim (Bool-cases (strcmp_zero name x.token)) [
  | inl q ↦ let gone : some x.payload ≡ none = sym (rw q refl) ∙ e in ground arith
  | inr q ↦ rw q (find_slot-right xs ys name (sym (rw q refl) ∙ e))
]

find_slot-IsText :
    (xs : List TemplateSlot) (name v : Bytes)
    → All (λ s. IsText s.payload) xs
    → find_slot xs name ≡ some v
    → IsText v
find_slot-IsText [] name v h e = let gone : none ≡ some v = e in ground arith
find_slot-IsText (x ∷ xs) name v h e = elim (Bool-cases (strcmp_zero name x.token)) [
  | inl q ↦ subst IsText (some_injective (sym (rw q refl) ∙ e)) h.0
  | inr q ↦ find_slot-IsText xs name v h.1 (sym (rw q refl) ∙ e)
]

-- What a partial call leaves, behind the text `before`: slots that it has no payload for.
abbrev left_open : List TemplateSlot → Bytes → Parts → Parts
left_open table before (ending last) = ending (before ++ last)
left_open table before (slot text name rest) = elim (find_slot table name) [
  | none ↦ slot (before ++ text) name (left_open table [] rest)
  | some v ↦ left_open table (before ++ (text ++ v)) rest
]

append_thrice : (a b c d : Bytes) → (a ++ (b ++ c)) ++ d ≡ a ++ (b ++ (c ++ d))
append_thrice a b c d = append_assoc a (b ++ c) d ∙ ap (a ++◌) (append_assoc b c d)

value_of-open :
    (table : List TemplateSlot) (name : Bytes)
    → find_slot table name ≡ none
    → codes "[[" ++ (name ++ codes "]]") ≡ value_of table true name
value_of-open table name e = rw (value_of, e) refl

value_of-payload :
    (table : List TemplateSlot) (partial : Bool) (name v : Bytes)
    → find_slot table name ≡ some v
    → v ≡ value_of table partial name
value_of-payload table partial name v e = rw (value_of, e) refl

value_of-right :
    (xs ys : List TemplateSlot) (partial : Bool) (name : Bytes)
    → find_slot xs name ≡ none
    → value_of ys partial name ≡ value_of (xs ++ ys) partial name
value_of-right xs ys partial name e = rw (value_of, find_slot-right xs ys name e) refl

module _ (xs : List TemplateSlot) where
  show-left_open :
      (before : Bytes) (p : Parts) → show (left_open xs before p) ≡ before ++ filled xs true p
  show-left_open before (ending last) = refl
  show-left_open before (slot text name rest) = elim (Option-cases (find_slot xs name)) [
    | inl e ↦
        rw (left_open, e)
          (append_assoc before text _
            ∙ ap (λ r. before ++ (text ++ (b'[' ∷ b'[' ∷ r)))
                (ap (λ r. name ++ (b']' ∷ b']' ∷ r)) (show-left_open [] rest)
                  ∙ sym (append_assoc name (codes "]]") (filled xs true rest)))
            ∙ ap (λ v. before ++ (text ++ (v ++ filled xs true rest))) (value_of-open xs name e))
    | inr (v, e) ↦
        rw (left_open, e)
          (show-left_open (before ++ (text ++ v)) rest
            ∙ append_thrice before text v (filled xs true rest)
            ∙ ap (λ v. before ++ (text ++ (v ++ filled xs true rest)))
                (value_of-payload xs true name v e))
  ]

  filled-left_open :
      (ys : List TemplateSlot) (partial : Bool) (before : Bytes) (p : Parts)
      → filled ys partial (left_open xs before p) ≡ before ++ filled (xs ++ ys) partial p
  filled-left_open ys partial before (ending last) = refl
  filled-left_open ys partial before (slot text name rest) =
      elim (Option-cases (find_slot xs name)) [
        | inl e ↦
            rw (left_open, e)
              (append_assoc before text _
                ∙ ap (λ r. before ++ (text ++ (value_of ys partial name ++ r)))
                    (filled-left_open ys partial [] rest)
                ∙ ap (λ v. before ++ (text ++ (v ++ filled (xs ++ ys) partial rest)))
                    (value_of-right xs ys partial name e))
        | inr (v, e) ↦
            rw (left_open, e)
              (filled-left_open ys partial (before ++ (text ++ v)) rest
                ∙ append_thrice before text v (filled (xs ++ ys) partial rest)
                ∙ ap (λ v. before ++ (text ++ (v ++ filled (xs ++ ys) partial rest)))
                    (value_of-payload (xs ++ ys) partial name v (find_slot-left xs ys name v e)))
      ]

  left_open-IsTemplate :
      (before : Bytes) (p : Parts)
      → All (λ s. IsText s.payload) xs
      → IsText before
      → IsTemplate p
      → IsTemplate (left_open xs before p)
  left_open-IsTemplate before (ending last) t b h = All-append _ before last b h
  left_open-IsTemplate before (slot text name rest) t b (h, n, r) =
      elim (Option-cases (find_slot xs name)) [
        | inl e ↦
            rw (left_open, e) (All-append _ before text b h, n, left_open-IsTemplate [] rest t tt r)
        | inr (v, e) ↦
            rw (left_open, e)
              (left_open-IsTemplate (before ++ (text ++ v)) rest t
                (All-append _ before (text ++ v) b
                  (All-append _ text v h (find_slot-IsText xs name v t e)))
                r)
      ]

module _ {D : Type 0} (number_to_string : Scm D → Bytes) where
  -- On a template made of texts without `[` and slots `[[NAME]]` whose names start with an upper-
  -- case letter and have no `]`, a partial fill_template with strings that have no `[`, and then
  -- fill_template on what it gave with other slots, comes to fill_template on the template with
  -- the slots of both.
  pub fill_template-twice :
      (p : Parts) (xs ys : List TemplateSlot) (partial : Bool)
      → IsTemplate p
      → All (λ s. IsText s.payload) xs
      → (fill_template number_to_string (string (show p)) (boolean true) (alist xs) >>= λ first.
          fill_template number_to_string (string first) (boolean partial) (alist ys))
        ≡ fill_template number_to_string (string (show p)) (boolean partial) (alist (xs ++ ys))
  fill_template-twice p xs ys partial h t =
      let left : Parts = left_open (upcase xs) [] p in
      ap
        (λ m.
          m >>= λ first. fill_template number_to_string (string first) (boolean partial) (alist ys))
        (fill_alist number_to_string xs p true h)
      ∙ ap (λ first. fill_template number_to_string (string first) (boolean partial) (alist ys))
          (sym (show-left_open (upcase xs) [] p))
      ∙ fill_alist number_to_string ys left partial
          (left_open-IsTemplate (upcase xs) [] p (upcase-IsText xs t) tt h)
      ∙ ap ok (filled-left_open (upcase xs) (upcase ys) partial [] p)
      ∙ ap (λ table. ok (filled table partial p)) (sym (upcase-append xs ys))
      ∙ sym (fill_alist number_to_string (xs ++ ys) p partial h)
