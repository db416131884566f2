-- ===== src/Tests/Templates.antt =====
-- Templates of src/template.c on concrete texts.
use gusher.Base.{
  ℕ, ◌≡◌, refl, Bytes, List, true, false, [], ◌∷◌, ok, ◌>>=◌, is_upper, to_upper, arith,
}
use gusher.CString.{codes, strcmp_zero}
use gusher.Scheme.{Scm, boolean, string}
use gusher.Template.{TemplateSlot, fill_loop, fill_template}
use gusher.Template.Fill.{Parts, ending, slot, show, IsTemplate}
use gusher.Template.Slots.{alist, IsFilled, fill_template-IsFilled}
use gusher.Template.Twice.{fill_template-twice}

-- Every number is written as nothing.
abbrev no_text : Scm ℕ → Bytes
no_text x = []

-- `Hello [[NAME]] [[X]].`
abbrev greeting : Parts
greeting = slot (codes "Hello ") (codes "NAME") (slot (codes " ") (codes "X") (ending (codes ".")))

abbrev name_slot : TemplateSlot
name_slot = record { token = codes "name"; payload = codes "Bob" }

abbrev x_slot : TemplateSlot
x_slot = record { token = codes "x"; payload = codes "Lee" }

greeting-IsTemplate : IsTemplate greeting
unfolding is_upper
greeting-IsTemplate = ground arith

-- Two slots of one name.
abbrev both_slots : List TemplateSlot
both_slots = name_slot ∷ record { token = codes "NAME"; payload = codes "Ann" } ∷ []

fill_template-IsFilled_example :
    (out : Bytes) × (fill_template no_text
        (string (show greeting))
        (boolean true)
        (alist both_slots)
      ≡ ok out)
    × IsFilled both_slots true greeting out
fill_template-IsFilled_example =
    fill_template-IsFilled no_text both_slots greeting true greeting-IsTemplate

first_filled :
    fill_template no_text (string (show greeting)) (boolean true) (alist both_slots)
    ≡ ok (codes "Hello Bob [[X]].")
unfolding fill_template fill_loop to_upper is_upper strcmp_zero
first_filled = refl

fill_template-twice_example :
    (fill_template no_text (string (show greeting)) (boolean true) (alist (name_slot ∷ []))
      >>= λ first. fill_template no_text (string first) (boolean false) (alist (x_slot ∷ [])))
    ≡ fill_template no_text
        (string (show greeting))
        (boolean false)
        (alist (name_slot ∷ x_slot ∷ []))
fill_template-twice_example =
    fill_template-twice no_text greeting (name_slot ∷ []) (x_slot ∷ []) false greeting-IsTemplate
      (ground arith)

-- Before a name that starts in lower case, two characters are lost.
skips_lower : fill_loop [] false 9 (codes "a[[b CD]]e") ≡ ok (codes "a[[" ∷ codes "e" ∷ [])
unfolding fill_loop is_upper
skips_lower = refl
