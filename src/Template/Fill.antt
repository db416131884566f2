-- ===== src/Template/Fill.antt =====
-- `fill_template` of src/template.c on texts with proper slots.
use gusher.Base.{
  ℕ, zero, suc, ◌<◌, ◌≤◌, ◌≡◌, refl, sym, ap, ◌∙◌, Bool, true, false, Bytes, List, [], ◌∷◌, ◌++◌,
  append_assoc, append-nil, length, length-append, drop, All, ◌==◌, none, some, ok, is_upper,
  if◌then◌else◌, Option-cases, inl, inr, arith, ==_self,
}
use gusher.CString.{codes}
use gusher.Scheme.{Scm, boolean, string, is_list}
use gusher.Template.{
  TemplateSlot, c_string, strstr_two, skip_to_upper, slot_name, find_slot, slot_parts, fill_loop,
  concat, slot_table, fill_template,
}

-- A template taken apart: a text, a slot's name and what is behind the slot; or the last text.
pub data Parts : Type 0 where
  ending : Bytes → Parts
  slot : Bytes → Bytes → Parts → Parts

-- The template's text.
abbrev pub show : Parts → Bytes
show (ending last) = last
show (slot text name rest) = text ++ (b'[' ∷ b'[' ∷ (name ++ (b']' ∷ b']' ∷ show rest)))

-- What `fill_template` puts in place of a slot, by its own search in the table.
abbrev pub value_of : List TemplateSlot → Bool → Bytes → Bytes
value_of table partial name = elim (find_slot table name) [
  | some payload ↦ payload
  | none ↦ if partial then codes "[[" ++ (name ++ codes "]]") else []
]

-- The text with each slot replaced.
abbrev pub filled : List TemplateSlot → Bool → Parts → Bytes
filled table partial (ending last) = last
filled table partial (slot text name rest) =
    text ++ (value_of table partial name ++ filled table partial rest)

-- A text without `[`.
abbrev pub IsText : Bytes → Type 0
IsText text = All (λ c. (c == b'[') ≡ false) text

-- A name: it starts with an upper-case letter and has no `]`.
abbrev pub IsName : Bytes → Type 0
IsName [] = ⊥
IsName (c ∷ name) = (is_upper c ≡ true) × All (λ c. ((c == b']') ≡ false) × (1 ≤ c)) (c ∷ name)

abbrev pub IsTemplate : Parts → Type 0
IsTemplate (ending last) = IsText last
IsTemplate (slot text name rest) = IsText text × IsName name × IsTemplate rest

strstr_two-cons :
    (a b c : ℕ) (s l r : Bytes)
    → (c == a) ≡ false
    → strstr_two a b s ≡ some (l, r)
    → strstr_two a b (c ∷ s) ≡ some (c ∷ l, r)
strstr_two-cons a b c [] l r ne e = ground arith
strstr_two-cons a b c (d ∷ s) l r ne e = rw (ne, e) refl

strstr_two-behind :
    (a b : ℕ) (text rest : Bytes)
    → All (λ c. (c == a) ≡ false) text
    → strstr_two a b (text ++ a ∷ b ∷ rest) ≡ some (text, a ∷ b ∷ rest)
strstr_two-behind a b [] rest h = rw (==_self a, ==_self b) refl
strstr_two-behind a b (c ∷ text) rest (ne, h) =
    strstr_two-cons a b c (text ++ a ∷ b ∷ rest) text (a ∷ b ∷ rest) ne
      (strstr_two-behind a b text rest h)

strstr_two-none :
    (a b : ℕ) (text : Bytes) → All (λ c. (c == a) ≡ false) text → strstr_two a b text ≡ none
strstr_two-none a b [] h = refl
strstr_two-none a b (c ∷ []) h = refl
strstr_two-none a b (c ∷ d ∷ text) (ne, h) = rw (ne, strstr_two-none a b (d ∷ text) h) refl

c_string-append :
    (s rest : Bytes) → All (λ c. ((c == b']') ≡ false) × (1 ≤ c)) s → c_string (s ++ 0 ∷ rest) ≡ s
c_string-append [] rest h = refl
c_string-append (zero ∷ s) rest h = elim h.0.1 [ ]
c_string-append (suc c ∷ s) rest h = ap (◌∷◌ (suc c)) (c_string-append s rest h.1)

no_bracket :
    (s : Bytes) → All (λ c. ((c == b']') ≡ false) × (1 ≤ c)) s → All (λ c. (c == b']') ≡ false) s
no_bracket [] h = tt
no_bracket (c ∷ s) h = (h.0.0, no_bracket s h.1)

concat-append : (xs ys : List Bytes) → concat (xs ++ ys) ≡ concat xs ++ concat ys
concat-append [] ys = refl
concat-append (x ∷ xs) ys =
    ap (x ++◌) (concat-append xs ys) ∙ sym (append_assoc x (concat xs) (concat ys))

slots_of : Parts → ℕ
slots_of (ending last) = 0
slots_of (slot text name rest) = suc (slots_of rest)

slots_of-length : (p : Parts) → slots_of p ≤ length (show p)
unfolding slots_of
slots_of-length (ending last) = omega arith
slots_of-length (slot text name rest) = omega (
  arith,
  slots_of-length rest,
  length-append text (b'[' ∷ b'[' ∷ (name ++ (b']' ∷ b']' ∷ show rest))),
  length-append name (b']' ∷ b']' ∷ show rest),
)

partial_parts :
    (partial : Bool) (name : Bytes)
    → concat (if partial then codes "[[" ∷ name ∷ codes "]]" ∷ [] else [])
      ≡ (if partial then codes "[[" ++ (name ++ codes "]]") else [])
partial_parts true name = refl
partial_parts false name = refl

-- A slot's first letter ends the search for one at once.
skip_to_upper-name :
    (u : ℕ) (s : Bytes)
    → is_upper u ≡ true
    → skip_to_upper (b'[' ∷ b'[' ∷ u ∷ s) ≡ ([], b'[' ∷ b'[' ∷ u ∷ s)
skip_to_upper-name u s e = rw e refl

module _ (table : List TemplateSlot) (partial : Bool) where
  concat-slot_parts :
      (name : Bytes) → concat (slot_parts table partial name) ≡ value_of table partial name
  concat-slot_parts name = elim (Option-cases (find_slot table name)) [
    | inl e ↦ rw (slot_parts, value_of, e) (partial_parts partial name)
    | inr (payload, e) ↦ rw (slot_parts, value_of, e) (append-nil payload)
  ]

  -- One round, on a text with a slot.
  fill_loop-slot :
      (f : ℕ) (pin before mark passed start inside sense name : Bytes) (parts : List Bytes)
      → strstr_two (b'[') (b'[') pin ≡ some (before, mark)
      → skip_to_upper mark ≡ (passed, start)
      → strstr_two (b']') (b']') start ≡ some (inside, sense)
      → slot_name inside sense ≡ name
      → fill_loop table partial f (drop 2 sense) ≡ ok parts
      → fill_loop table partial (suc f) pin
        ≡ ok ((before ++ passed) ∷ (slot_parts table partial name ++ parts))
  unfolding fill_loop
  fill_loop-slot f pin before mark passed start inside sense name parts m k e n run =
      rw (fill_loop, m, k, e, n, run)
        (ap (λ q. ok ((before ++ q.0) ∷ (slot_parts table partial name ++ parts))) k)

  -- The loop on a template: its parts make up the filled text.
  fill_loop-filled :
      (f : ℕ) (p : Parts)
      → slots_of p < f
      → IsTemplate p
      → (parts : List Bytes) × (fill_loop table partial f (show p) ≡ ok parts)
        × (concat parts ≡ filled table partial p)
  unfolding fill_loop slots_of
  fill_loop-filled (suc f) (ending last) l h =
      (last ∷ [], rw (fill_loop, strstr_two-none (b'[') (b'[') last h) refl, append-nil last)
  fill_loop-filled (suc f) (slot text (u ∷ name) rest) l (t, n, h) =
      let (parts, run, e) = fill_loop-filled f rest (omega arith) h in
      let inside : Bytes = b'[' ∷ b'[' ∷ u ∷ name in
      (
        (text ++ []) ∷ (slot_parts table partial (u ∷ name) ++ parts),
        fill_loop-slot f (show (slot text (u ∷ name) rest)) text (inside ++ b']' ∷ b']' ∷ show rest)
            [] (inside ++ b']' ∷ b']' ∷ show rest) inside (b']' ∷ b']' ∷ show rest) (u ∷ name) parts
            (strstr_two-behind (b'[') (b'[') text (u ∷ (name ++ (b']' ∷ b']' ∷ show rest))) t)
            (skip_to_upper-name u (name ++ (b']' ∷ b']' ∷ show rest)) n.0)
            (strstr_two-behind (b']') (b']') inside (show rest)
              (refl, (refl, no_bracket (u ∷ name) n.1)))
            (c_string-append (u ∷ name) (b']' ∷ show rest) n.1) run,
        rw (append-nil text, concat-append (slot_parts table partial (u ∷ name)) parts, e)
            (ap (λ v. text ++ (v ++ filled table partial rest)) (concat-slot_parts (u ∷ name))),
      )
  fill_loop-filled zero p l h = elim l [ ]
  fill_loop-filled (suc f) (slot text [] rest) l (t, n, h) = elim n [ ]

module _ {D : Type 0} (number_to_string : Scm D → Bytes) where
  -- fill_template on a template, in terms of the table that it makes of the slots.
  pub fill_template-table :
      (p : Parts) (partial : Bool) (slots : Scm D) (table : List TemplateSlot)
      → IsTemplate p
      → is_list slots ≡ true
      → slot_table number_to_string slots ≡ ok table
      → fill_template number_to_string (string (show p)) (boolean partial) slots
        ≡ ok (filled table partial p)
  unfolding fill_template
  fill_template-table p partial slots table h listed t =
      let (parts, run, e) =
        fill_loop-filled table partial (suc (length (show p))) p (omega (arith, slots_of-length p))
          h in
      rw (listed, t, run) (ap ok e)
