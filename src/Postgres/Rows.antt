-- ===== src/Postgres/Rows.antt =====
-- The row that `build_row` of src/postgres.c makes, and what `pg_cell` finds in it.
use gusher.Base.{if◌then◌else◌, ℕ, suc, ◌≡◌, refl, false, Bytes, List, [], ◌∷◌, Option, ok, length}
use gusher.CString.{strcmp_zero}
use gusher.Gtime.{Doubles, Calendar}
use gusher.Scheme.{Scm, null, boolean, symbol, pair, cell_of}
use gusher.Postgres.{Libpq, PgRes, field_value, row_loop, build_row, pg_cell}

-- A field's name and value.
abbrev pub Cells : Type 0 → Type 0
Cells D = List (Bytes × Scm D)

-- Each field's cell in front of the row.
abbrev pub pushed : {D : Type 0} → Cells D → Scm D → Scm D
pushed [] row = row
pushed ((name, value) ∷ cells) row = pushed cells (pair (pair (symbol name) value) row)

-- The value of the last field of that name, or else `#f`.
abbrev pub last_cell : {D : Type 0} → Cells D → Scm D → Bytes → Scm D
last_cell [] found key = found
last_cell ((name, value) ∷ cells) found key =
    last_cell cells (if strcmp_zero name key then value else found) key

cell_of-pushed :
    {D : Type 0} (cells : Cells D) (row : Scm D) (key : Bytes)
    → cell_of (pushed cells row) key ≡ last_cell cells (cell_of row key) key
cell_of-pushed [] row key = refl
cell_of-pushed ((name, value) ∷ cells) row key =
    cell_of-pushed cells (pair (pair (symbol name) value) row) key

module _ {D C R : Type 0} (dbl : Doubles D) (cal : Calendar) (pq : Libpq C R) where
  -- The fields from `i` on have these names, and their values decode to these.
  abbrev pub Decode : Option R → ℕ → ℕ → List Bytes → List ℕ → Cells D → Type 0
  Decode res cursor i [] [] [] = Unit
  Decode res cursor i (name ∷ fnode) (dtype ∷ tnode) ((key, value) ∷ cells) =
      (name ≡ key)
      × (field_value dbl cal pq res cursor i dtype ≡ ok value)
      × Decode res cursor (suc i) fnode tnode cells
  Decode res cursor i _ _ _ = ⊥

  pub row_loop-pushed :
      (res : Option R) (cursor i : ℕ) (fnode : List Bytes) (tnode : List ℕ) (cells : Cells D)
      → (row : Scm D) → Decode res cursor i fnode tnode cells
      → row_loop dbl cal pq res cursor i (length cells) fnode tnode row ≡ ok (pushed cells row)
  unfolding row_loop
  row_loop-pushed res cursor i [] [] [] row h = refl
  row_loop-pushed res cursor i (name ∷ fnode) (dtype ∷ tnode) ((key, value) ∷ cells) row h =
      rw (h.1, h.0)
        (row_loop-pushed res cursor (suc i) fnode tnode cells (pair (pair (symbol key) value) row)
          h.2)
  row_loop-pushed res cursor i [] [] (c ∷ cells) row h = absurd h
  row_loop-pushed res cursor i [] (t ∷ tnode) [] row h = absurd h
  row_loop-pushed res cursor i [] (t ∷ tnode) (c ∷ cells) row h = absurd h
  row_loop-pushed res cursor i (n ∷ fnode) [] [] row h = absurd h
  row_loop-pushed res cursor i (n ∷ fnode) [] (c ∷ cells) row h = absurd h
  row_loop-pushed res cursor i (n ∷ fnode) (t ∷ tnode) [] row h = absurd h

  -- Where each field's value decodes, build_row gives a row in which pg_cell finds the value of
  -- the last field of the name asked for, or `#f` where no field has it.
  pub build_row-pg_cell :
      (pgr : PgRes R) (cells : Cells D) (key : Bytes)
      → Decode pgr.res pgr.cursor 0 pgr.fields pgr.types cells
      → pgr.nfields ≡ length cells
      → (row : Scm D) × (build_row dbl cal pq pgr ≡ ok row)
        × (pg_cell row key ≡ last_cell cells (boolean false) key)
  unfolding build_row pg_cell
  build_row-pg_cell pgr cells key h n = (
    pushed cells null,
    rw n (row_loop-pushed pgr.res pgr.cursor 0 pgr.fields pgr.types cells null h),
    cell_of-pushed cells null key,
  )
