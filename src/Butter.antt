-- ===== src/Butter.antt =====
-- Conversions, src/butter.c, and what a responder asks of its query, src/main.c (`query_value`,
-- `query_value_number`, `query_value_boolean`). Guile's text of a number is a parameter.
pub mod Cat
pub mod Params
use gusher.Base.{
  ℕ, Bool, true, false, not, ◌||◌, Bytes, List, [], ◌∷◌, ◌++◌, ◌==◌, Option, none, some, Run, ok,
  fault, thrown, ◌>>=◌, ℤ, pos, negsuc, if◌then◌else◌,
}
use gusher.CString.{codes, split_at}
use gusher.Form.{atoi}
use gusher.Gtime.{Doubles}
use gusher.Scheme.{
  Scm, null, boolean, exact, inexact, string, symbol, pair, timestamp, other, is_list, cell_of,
}

-- `scm_string_join(list, glue, 'infix)`
abbrev pub join : Bytes → List Bytes → Bytes
join glue [] = []
join glue (s ∷ []) = s
join glue (s ∷ t ∷ list) = s ++ (glue ++ join glue (t ∷ list))

module _ {D : Type 0} (number_to_string : Scm D → Bytes) where
  -- `to_s`
  unfoldable pub to_s : Scm D → Scm D
  to_s (string s) = string s
  to_s (exact n) = string (number_to_string (exact n))
  to_s (inexact x) = string (number_to_string (inexact x))
  to_s (symbol s) = string s
  to_s null = string []
  to_s (boolean true) = string (codes "true")
  to_s (boolean false) = string (codes "false")
  to_s obj = obj

  -- The loop of `string_cat`: what it collects, in order. Other items are passed over; a tail that
  -- is no list is taken apart all the same.
  unfoldable pub cat_items : Bytes → Scm D → Run (List Bytes)
  cat_items glue null = ok []
  cat_items glue (pair (string s) node) = do list ← cat_items glue node; ok (s ∷ list)
  cat_items glue (pair (symbol s) node) = do list ← cat_items glue node; ok (s ∷ list)
  cat_items glue (pair (exact n) node) = do
    list ← cat_items glue node
    ok (number_to_string (exact n) ∷ list)
  cat_items glue (pair (inexact x) node) = do
    list ← cat_items glue node
    ok (number_to_string (inexact x) ∷ list)
  cat_items glue (pair null node) = do list ← cat_items glue node; ok ([] ∷ list)
  cat_items glue (pair (pair a d) node) =
      if is_list d
      then (do
        inner ← cat_items glue (pair a d)
        list ← cat_items glue node
        ok (join glue inner ∷ list))
      else cat_items glue node
  cat_items glue (pair (boolean b) node) = cat_items glue node
  cat_items glue (pair (timestamp t) node) = cat_items glue node
  cat_items glue (pair other node) = cat_items glue node
  cat_items glue _ = fault

  -- `string_cat`
  unfoldable pub string_cat : Bytes → Scm D → Run Bytes
  unfolding cat_items
  string_cat glue items = do list ← cat_items glue items; ok (join glue list)

-- `query_value`
unfoldable pub query_value : {D : Type 0} → Scm D → Bytes → Scm D
query_value request key = cell_of (cell_of request (codes "query")) key

module _ {D : Type 0} (dbl : Doubles D) where
  -- `to_i`: every number is real to Guile, so an integer too goes through a double.
  unfoldable pub to_i : Scm D → Scm D
  to_i (string s) = exact (atoi s)
  to_i (exact n) = exact (dbl.to_int (dbl.of_int n))
  to_i (inexact x) = exact (dbl.to_int x)
  to_i (boolean true) = exact (pos 1)
  to_i _ = exact (pos 0)

  unfoldable pub to_f : Scm D → D
  to_f (string s) = dbl.atof s
  to_f (exact n) = dbl.of_int n
  to_f (inexact x) = x
  to_f (boolean true) = dbl.of_int (pos 1)
  to_f _ = dbl.of_int (pos 0)

  -- The value of a parameter as a number, where it is a string.
  number_of : Bytes → Scm D
  number_of buf = elim (split_at b'.' buf) [
    | none ↦ exact (atoi buf)
    | some (l, r) ↦ inexact (dbl.atof buf)
  ]

  to_number : Scm D → Run (Scm D)
  unfolding number_of
  to_number (boolean false) = ok (exact (pos 0))
  to_number (string buf) = ok (number_of buf)
  to_number _ = thrown

  unfoldable pub query_value_number : Scm D → Bytes → Run (Scm D)
  unfolding to_number query_value
  query_value_number request key = to_number (query_value request key)

  abbrev is_zero : ℤ → Bool
  is_zero (pos n) = n == 0
  is_zero (negsuc n) = false

  unfoldable pub means_true : Bytes → Bool
  means_true [] = not (is_zero (atoi []))
  means_true (c ∷ s) =
      c == b'y' || c == b'Y' || c == b't' || c == b'T' || not (is_zero (atoi (c ∷ s)))

  to_boolean : Scm D → Run Bool
  unfolding means_true
  to_boolean (boolean false) = ok false
  to_boolean (string buf) = ok (means_true buf)
  to_boolean _ = thrown

  unfoldable pub query_value_boolean : Scm D → Bytes → Run Bool
  unfolding to_boolean query_value
  query_value_boolean request key = to_boolean (query_value request key)
