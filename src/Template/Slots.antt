-- ===== src/Template/Slots.antt =====
-- `fill_template` of src/template.c on slots as a script gives them: an association list of symbols
-- and strings.
use gusher.Base.{
  ◌≡◌, refl, sym, ap, ◌∙◌, subst, Bool, true, false, Bool-cases, Bytes, List, [], ◌∷◌, ◌++◌, map,
  All, none, some, ok, Option-cases, inl, inr, ◌⊎◌, to_upper, some_injective, if◌then◌else◌, arith,
}
use gusher.CString.{codes, strcmp_zero, strcmp_zero_iff}
use gusher.Scheme.{Scm, null, boolean, string, symbol, pair, is_list}
use gusher.Template.{TemplateSlot, find_slot, slot_table, fill_template}
use gusher.Template.Fill.{
  Parts, ending, slot, show, value_of, filled, IsTemplate, fill_template-table,
}

-- The slots as an association list of symbols and strings.
abbrev pub alist : {D : Type 0} → List TemplateSlot → Scm D
alist [] = null
alist (s ∷ slots) = pair (pair (symbol s.token) (string s.payload)) (alist slots)

abbrev pub upcase : List TemplateSlot → List TemplateSlot
upcase [] = []
upcase (s ∷ slots) = record s { token = map to_upper s.token } ∷ upcase slots

is_list-alist : (D : Type 0) (slots : List TemplateSlot) → is_list {D = D} (alist slots) ≡ true
is_list-alist D [] = refl
is_list-alist D (s ∷ slots) = is_list-alist D slots

slot_table-alist :
    {D : Type 0} (number_to_string : Scm D → Bytes) (slots : List TemplateSlot)
    → slot_table number_to_string (alist slots) ≡ ok (upcase slots)
slot_table-alist n [] = refl
slot_table-alist n (s ∷ slots) = rw (slot_table-alist n slots) refl

-- The slot has the name, in any case of letters.
abbrev pub HasName : Bytes → TemplateSlot → Type 0
HasName name s = map to_upper s.token ≡ name

-- The payload of the first slot of that name, as it stands in the list.
abbrev pub IsFirst : List TemplateSlot → Bytes → Bytes → Type 0
IsFirst slots name value =
    (before : List TemplateSlot) × (s : TemplateSlot) × (behind : List TemplateSlot) × (slots
      ≡ before ++ s ∷ behind)
    × All (λ s. ¬ HasName name s) before
    × HasName name s
    × (s.payload ≡ value)

-- What stands for a slot of that name: the first payload, or where no slot has the name nothing,
-- or for a partial call the slot itself.
abbrev pub IsValue : List TemplateSlot → Bool → Bytes → Bytes → Type 0
IsValue slots partial name value =
    IsFirst slots name value
    ⊎ (All (λ s. ¬ HasName name s) slots
        × (value ≡ (if partial then codes "[[" ++ (name ++ codes "]]") else [])))

-- The texts, with such a value in place of each slot.
abbrev pub IsFilled : List TemplateSlot → Bool → Parts → Bytes → Type 0
IsFilled slots partial (ending last) out = out ≡ last
IsFilled slots partial (slot text name rest) out =
    (value : Bytes) × (more : Bytes) × (out ≡ text ++ (value ++ more))
    × IsValue slots partial name value
    × IsFilled slots partial rest more

-- Whether a name is the upper-cased token of a slot.
same_name :
    (name token : Bytes)
    → ((token ≡ name) × (strcmp_zero name token ≡ true))
      ⊎ ((¬ token ≡ name) × (strcmp_zero name token ≡ false))
same_name name token = elim (Bool-cases (strcmp_zero name token)) [
  | inl q ↦ inl (sym ((strcmp_zero_iff name token).0 q), q)
  | inr q ↦ inr (
    λ e.
        let hit : strcmp_zero name token ≡ true = (strcmp_zero_iff name token).1 (sym e) in
        ground arith,
    q,
  )
]

find_slot-IsFirst :
    (slots : List TemplateSlot) (name value : Bytes)
    → find_slot (upcase slots) name ≡ some value
    → IsFirst slots name value
find_slot-IsFirst [] name value e = cc
find_slot-IsFirst (s ∷ slots) name value e = elim (same_name name (map to_upper s.token)) [
  | inl (same, q) ↦ ([], s, slots, refl, tt, same, some_injective (sym (rw q refl) ∙ e))
  | inr (other, q) ↦
      let (before, hit, behind, split, apart, named, paid) =
        find_slot-IsFirst slots name value (sym (rw q refl) ∙ e) in
      (s ∷ before, hit, behind, ap (◌∷◌ s) split, (other, apart), named, paid)
]

find_slot-none :
    (slots : List TemplateSlot) (name : Bytes)
    → find_slot (upcase slots) name ≡ none
    → All (λ s. ¬ HasName name s) slots
find_slot-none [] name e = tt
find_slot-none (s ∷ slots) name e = elim (same_name name (map to_upper s.token)) [
  | inl (same, q) ↦ let gone : some s.payload ≡ none = sym (rw q refl) ∙ e in absurd (cc)
  | inr (other, q) ↦ (other, find_slot-none slots name (sym (rw q refl) ∙ e))
]

value_of-IsValue :
    (slots : List TemplateSlot) (partial : Bool) (name : Bytes)
    → IsValue slots partial name (value_of (upcase slots) partial name)
value_of-IsValue slots partial name = elim (Option-cases (find_slot (upcase slots) name)) [
  | inl e ↦ inr (find_slot-none slots name e, rw (value_of, e) refl)
  | inr (value, e) ↦
      inl
        (subst (IsFirst slots name) (rw (value_of, e) refl) (find_slot-IsFirst slots name value e))
]

filled-IsFilled :
    (slots : List TemplateSlot) (partial : Bool) (p : Parts)
    → IsFilled slots partial p (filled (upcase slots) partial p)
filled-IsFilled slots partial (ending last) = refl
filled-IsFilled slots partial (slot text name rest) = (
  value_of (upcase slots) partial name,
  filled (upcase slots) partial rest,
  refl,
  value_of-IsValue slots partial name,
  filled-IsFilled slots partial rest,
)

module _ {D : Type 0} (number_to_string : Scm D → Bytes) where
  pub fill_alist :
      (slots : List TemplateSlot) (p : Parts) (partial : Bool)
      → IsTemplate p
      → fill_template number_to_string (string (show p)) (boolean partial) (alist slots)
        ≡ ok (filled (upcase slots) partial p)
  fill_alist slots p partial h =
      fill_template-table number_to_string p partial (alist slots) (upcase slots) h
        (is_list-alist D slots) (slot_table-alist number_to_string slots)

  -- On a template made of texts without `[` and slots `[[NAME]]` whose names start with an upper-
  -- case letter and have no `]`, and slots that are an association list of symbols and strings,
  -- fill_template gives the texts with, in place of each slot, the payload of the first one in the
  -- list whose symbol in upper case is that name, and in place of a slot that has none nothing, or
  -- for a partial call the slot itself.
  pub fill_template-IsFilled :
      (slots : List TemplateSlot) (p : Parts) (partial : Bool)
      → IsTemplate p
      → (out : Bytes) × (fill_template number_to_string
            (string (show p))
            (boolean partial)
            (alist slots)
          ≡ ok out)
        × IsFilled slots partial p out
  fill_template-IsFilled slots p partial h = (
    filled (upcase slots) partial p,
    fill_alist slots p partial h,
    filled-IsFilled slots partial p,
  )
