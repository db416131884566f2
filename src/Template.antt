-- ===== src/Template.antt =====
-- Templates, src/template.c: a text in which slots `[[NAME]]` are replaced. A pointer into the
-- text stands as the bytes from it on; Guile's text of a number is a parameter.
pub mod Fill
pub mod Slots
pub mod Twice
use gusher.Base.{
  ℕ, zero, suc, Bool, true, false, ◌&&◌, Bytes, List, [], ◌∷◌, ◌++◌, map, length, drop, ◌==◌,
  Option, none, some, Run, ok, fault, thrown, out_of_fuel, ◌>>=◌, is_upper, to_upper, if◌then◌else◌,
}
use gusher.CString.{codes, strcmp_zero}
use gusher.Scheme.{
  Scm, null, boolean, exact, inexact, string, symbol, pair, timestamp, other, is_list,
}

-- `struct template_slot`
pub record TemplateSlot : Type 0 where
  pub token : Bytes
  pub payload : Bytes

-- A string in memory that may hold NULs, as a C string.
abbrev pub c_string : Bytes → Bytes
c_string [] = []
c_string (zero ∷ s) = []
c_string (suc c ∷ s) = suc c ∷ c_string s

-- `strstr(s, t)` for a `t` of two bytes: the text before the first `t`, and the text from it on.
abbrev pub strstr_two : ℕ → ℕ → Bytes → Option (Bytes × Bytes)
strstr_two a b [] = none
strstr_two a b (c ∷ []) = none
strstr_two a b (c ∷ d ∷ s) =
    let found = strstr_two a b (d ∷ s) in
    if (c == a) && (d == b)
    then some ([], c ∷ d ∷ s)
    else elim found [ none ↦ none | some (l, r) ↦ some (c ∷ l, r) ]

-- `while (sense[2] && !isupper(sense[2])) sense++;`: what is passed over, and the rest.
abbrev pub skip_to_upper : Bytes → Bytes × Bytes
skip_to_upper (a ∷ b ∷ c ∷ s) =
    let further = skip_to_upper (b ∷ c ∷ s) in
    if is_upper c then ([], a ∷ b ∷ c ∷ s) else (a ∷ further.0, further.1)
skip_to_upper s = ([], s)

-- The name behind `pin`, once the `]` at `sense` is overwritten.
abbrev pub slot_name : Bytes → Bytes → Bytes
slot_name pin sense = c_string (drop 2 (pin ++ 0 ∷ drop 1 sense))

abbrev pub find_slot : List TemplateSlot → Bytes → Option Bytes
find_slot [] name = none
find_slot (slot ∷ table) name =
    let rest = find_slot table name in
    if strcmp_zero name slot.token then some slot.payload else rest

-- What a slot of that name adds to `parts`.
abbrev pub slot_parts : List TemplateSlot → Bool → Bytes → List Bytes
slot_parts table partial name = elim (find_slot table name) [
  | some payload ↦ payload ∷ []
  | none ↦ if partial then codes "[[" ∷ name ∷ codes "]]" ∷ [] else []
]

-- The loop of `fill_template` from `pin`: the parts that it adds, in order.
unfoldable pub fill_loop : List TemplateSlot → Bool → ℕ → Bytes → Run (List Bytes)
fill_loop table partial zero pin = out_of_fuel
fill_loop table partial (suc f) pin = elim (strstr_two (b'[') (b'[') pin) [
  | none ↦ ok (pin ∷ [])
  | some (before, mark) ↦
      let (passed, start) = skip_to_upper mark in
      elim (strstr_two (b']') (b']') start) [
        | none ↦ ok ((before ++ passed) ∷ start ∷ [])
        | some (name, sense) ↦ do
          parts ← fill_loop table partial f (drop 2 sense)
          ok ((before ++ passed) ∷ (slot_parts table partial (slot_name name sense) ++ parts))
      ]
]

abbrev pub concat : List Bytes → Bytes
concat [] = []
concat (s ∷ parts) = s ++ concat parts

module _ {D : Type 0} (number_to_string : Scm D → Bytes) where
  abbrev pub payload_text : Scm D → Bytes
  payload_text (exact n) = number_to_string (exact n)
  payload_text (inexact x) = number_to_string (inexact x)
  payload_text (symbol s) = s
  payload_text (string s) = s
  payload_text x = []

  -- The loop over `slots`. `SCM_CAR` of what is no pair reads through it.
  abbrev pub slot_table : Scm D → Run (List TemplateSlot)
  slot_table null = ok []
  slot_table (pair (pair (symbol name) payload) node) = do
    table ← slot_table node
    ok (record { token = map to_upper name; payload = payload_text payload } ∷ table)
  slot_table (pair (pair a payload) node) = thrown
  slot_table _ = fault

  abbrev is_true : Scm D → Bool
  is_true (boolean b) = b
  is_true x = false

  -- `fill_template`
  unfoldable pub fill_template : Scm D → Scm D → Scm D → Run Bytes
  fill_template (string master) partial slots =
      if is_list slots
      then (do
        table ← slot_table slots
        parts ← fill_loop table (is_true partial) (suc (length master)) master
        ok (concat parts))
      else thrown
  fill_template x partial slots = thrown
