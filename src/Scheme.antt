-- ===== src/Scheme.antt =====
-- Scheme objects as the C code takes them apart: the objects that it tests for, and cells.
use gusher.Base.{if◌then◌else◌, Bool, true, false, Bytes, ℤ}
use gusher.CString.{strcmp_zero}
use gusher.Gtime.{GTime}

-- Inexact numbers are the doubles `D`; `timestamp` is a smob of src/gtime.c, and `other` is any
-- object that no test of the code tells apart.
pub data Scm (D : Type 0) : Type 0 where
  null : Scm D
  boolean : Bool → Scm D
  exact : ℤ → Scm D
  inexact : D → Scm D
  string : Bytes → Scm D
  symbol : Bytes → Scm D
  pair : Scm D → Scm D → Scm D
  timestamp : GTime → Scm D
  other : Scm D

-- `scm_list_p`
abbrev pub is_list : {D : Type 0} → Scm D → Bool
is_list null = true
is_list (pair a d) = is_list d
is_list _ = false

-- `scm_assq_ref(alist, key)` for a symbol; `#f` where there is none, and on what is no pair.
abbrev pub cell_of : {D : Type 0} → Scm D → Bytes → Scm D
cell_of (pair (pair (symbol k) v) rest) key =
    let found = cell_of rest key in if strcmp_zero k key then v else found
cell_of (pair a rest) key = cell_of rest key
cell_of _ key = boolean false
