-- ===== src/Postgres.antt =====
-- The database client, src/postgres.c: results with their cursor, and the values of a row.
-- The library libpq is a parameter.
pub mod Rows
pub mod Stream
pub mod Types
pub mod Values
use gusher.Base.{
  ℕ, zero, suc, ◌+◌, ◌-◌, Bool, true, false, Bytes, List, [], ◌∷◌, ◌++◌, ◌==◌, ◌||◌, leb, ltb,
  if◌then◌else◌, Option, none, some, Run, ok, fault, ◌>>=◌, ℤ, pos, reverse,
}
use gusher.CString.{codes, split_at, strcmp_zero}
use gusher.Form.{atoi}
use gusher.Gtime.{GTime, Doubles, Calendar, local_time_intern, format_time}
use gusher.Scheme.{
  Scm, null, boolean, exact, inexact, string, symbol, pair, timestamp, other, cell_of,
}

-- What the code asks of libpq about a result `R`; a result that was cleared is a null pointer.
pub record Libpq (C R : Type 0) : Type 0 where
  pub exec : Option C → Bytes → R
  pub ntuples : R → ℕ
  pub nfields : R → ℕ
  pub cmd_tuples : R → Bytes
  pub result_status : R → ℕ
  pub error_message : Option R → Bytes
  pub fname : R → ℕ → Bytes
  pub ftype : R → ℕ → ℕ
  pub getisnull : Option R → ℕ → ℕ → Bool
  pub getvalue : Option R → ℕ → ℕ → Bytes
  pub escape_literal : Option C → Bytes → Bytes

-- `struct pg_conn`; the mutex is held only inside a call.
pub record PgConn (C : Type 0) : Type 0 where
  pub conn : Option C

-- `struct pg_res`
pub record PgRes (R : Type 0) : Type 0 where
  pub res : Option R
  pub cursor : ℕ
  pub nfields : ℕ
  pub tuples : ℕ
  pub cmd_tuples : ℤ
  pub status : ℕ
  pub types : List ℕ
  pub fields : List Bytes

-- `PGRES_NONFATAL_ERROR`, `PGRES_FATAL_ERROR`
abbrev pub nonfatal_error : ℕ
nonfatal_error = 6

abbrev pub fatal_error : ℕ
fatal_error = 7

-- `pg_open_primitive`, with what `PQconnectdb` gives and whether the connection stands.
unfoldable pub pg_open_primitive : {C : Type 0} → (Bytes → C × Bool) → Bytes → PgConn C
pg_open_primitive connect conninfo =
    let (conn, stands) = connect conninfo in record { conn = if stands then some conn else none }

-- What the garbage collector calls, with the connection that is finished and the result that is
-- cleared.
unfoldable pub free_pg_conn : {C : Type 0} → PgConn C → Option C × PgConn C
free_pg_conn pgc = (pgc.conn, record pgc { conn = none })

unfoldable pub free_pg_res : {R : Type 0} → PgRes R → Option R
free_pg_res pgr = pgr.res

-- `pg_close`
unfoldable pub pg_close : {C : Type 0} → PgConn C → PgConn C
pg_close pgc = record pgc { conn = none }

-- `here = index(here, c) + 1`; a null pointer where there is no `c`.
unfoldable pub after : ℕ → Bytes → Run Bytes
after c s = elim (split_at c s) [ none ↦ fault | some (l, r) ↦ ok r ]

abbrev pub has : ℕ → Bytes → Bool
has c s = elim (split_at c s) [ none ↦ false | some (l, r) ↦ true ]

-- What `pg_map_rows` does to a row: nothing without a procedure.
abbrev pub mapped : {D : Type 0} → Option (Scm D → Run (Scm D)) → Scm D → Run (Scm D)
mapped none row = ok row
mapped (some f) row = f row

abbrev pub is_float : ℕ → Bool
is_float dtype = dtype == 701 || dtype == 1700 || dtype == 700

abbrev pub is_int : ℕ → Bool
is_int dtype = dtype == 20 || dtype == 21 || dtype == 23

abbrev pub is_stamp : ℕ → Bool
is_stamp dtype = dtype == 1114 || dtype == 1184 || dtype == 1082

abbrev pub is_bool : ℕ → Bool
is_bool dtype = dtype == 16 || dtype == 1000

abbrev pub starts_t : Bytes → Bool
starts_t [] = false
starts_t (c ∷ s) = c == b't'

abbrev pub stamp_of : {D : Type 0} → Option GTime → Run (Scm D)
stamp_of none = ok (boolean false)
stamp_of (some t) = ok (timestamp t)

module _ {D : Type 0} (dbl : Doubles D) (cal : Calendar) where
  -- The hour, minute and second of a timestamp, from the day on.
  abbrev pub clock_of : Bool → Bytes → Run (ℤ × ℤ × D)
  unfolding after
  clock_of false here = ok (pos 0, pos 0, dbl.of_int (pos 0))
  clock_of true here = do
    here ← after 32 here
    let hour = atoi here
    here ← after b':' here
    let min = atoi here
    here ← after b':' here
    ok (hour, min, dbl.atof here)

  -- `decode_timestamp`
  unfoldable pub decode_timestamp : Bytes → Run (Scm D)
  unfolding clock_of after
  decode_timestamp text = do
    let year = atoi text
    here ← after b'-' text
    let month = atoi here
    here ← after b'-' here
    let day = atoi here
    (hour, min, sec) ← clock_of (has b':' here) here
    stamp_of (local_time_intern dbl cal year month day hour min sec)

  -- `pg_decode`
  unfoldable pub pg_decode : Bytes → ℕ → Run (Scm D)
  unfolding decode_timestamp
  pg_decode text dtype =
      if is_float dtype
      then ok (inexact (dbl.atof text))
      else if is_int dtype
      then ok (exact (atoi text))
      else if is_stamp dtype
      then decode_timestamp text
      else if is_bool dtype
      then ok (boolean (starts_t text))
      else ok (string text)

  module _ {C R : Type 0} (pq : Libpq C R) where
    -- The value of field `i` of a row.
    unfoldable pub field_value : Option R → ℕ → ℕ → ℕ → Run (Scm D)
    unfolding pg_decode
    field_value res cursor i dtype =
        if pq.getisnull res cursor i then ok null else pg_decode (pq.getvalue res cursor i) dtype

    -- The loop of `build_row`, at field `i` with `left` to go. The lists have a cell for each field.
    pub row_loop : Option R → ℕ → ℕ → ℕ → List Bytes → List ℕ → Scm D → Run (Scm D)
    unfolding field_value
    row_loop res cursor i zero fnode tnode row = ok row
    row_loop res cursor i (suc left) (name ∷ fnode) (dtype ∷ tnode) row = do
      value ← field_value res cursor i dtype
      row_loop res cursor (suc i) left fnode tnode (pair (pair (symbol name) value) row)
    row_loop res cursor i (suc left) fnode tnode row = fault

    -- `build_row`
    unfoldable pub build_row : PgRes R → Run (Scm D)
    unfolding row_loop
    build_row pgr = row_loop pgr.res pgr.cursor 0 pgr.nfields pgr.fields pgr.types null

    -- `pg_get_row`; nothing for `#f`.
    unfoldable pub pg_get_row : PgRes R → Run (Option (Scm D) × PgRes R)
    pg_get_row pgr =
        if leb pgr.tuples pgr.cursor
        then ok (none, pgr)
        else (do row ← build_row pgr; ok (some row, record pgr { cursor = pgr.cursor + 1 }))

    -- `pg_next_row`
    unfoldable pub pg_next_row : PgRes R → Run (Option (Scm D) × PgRes R)
    pg_next_row pgr =
        if leb pgr.tuples pgr.cursor
        then ok (none, record pgr { res = none })
        else (do row ← build_row pgr; ok (some row, record pgr { cursor = pgr.cursor + 1 }))

    -- The loop of `pg_map_rows`, with `rounds` rows to go; the rows that `func` maps are in front
    -- of `bag`. `pg_each_row` is the same loop, without the bag.
    map_loop : (Scm D → Run (Scm D)) → ℕ → PgRes R → List (Scm D) → Run (List (Scm D) × PgRes R)
    unfolding build_row
    map_loop func zero pgr bag = ok (bag, pgr)
    map_loop func (suc rounds) pgr bag = do
      row ← build_row pgr
      out ← func row
      map_loop func rounds (record pgr { cursor = pgr.cursor + 1 }) (out ∷ bag)

    -- `pg_map_rows`, with the procedure that it is given, or with none.
    unfoldable pub pg_map_rows :
        Option (Scm D → Run (Scm D)) → PgRes R → Run (List (Scm D) × PgRes R)
    unfolding map_loop
    pg_map_rows rest pgr = do
      (bag, pgr) ← map_loop (mapped rest) (pgr.tuples - pgr.cursor) pgr []
      ok (reverse bag, record pgr { res = none })

    -- `pg_each_row`; what the procedure returns is dropped.
    unfoldable pub pg_each_row : (Scm D → Run (Scm D)) → PgRes R → Run (PgRes R)
    unfolding map_loop
    pg_each_row func pgr = do
      (bag, pgr) ← map_loop func (pgr.tuples - pgr.cursor) pgr []
      ok (record pgr { res = none })

    pg_format_text : Option C → Bytes → Scm D
    pg_format_text conn [] = string (codes "NULL")
    pg_format_text conn (c ∷ s) = string (pq.escape_literal conn (c ∷ s))

    -- `pg_format_sql`, with Guile's text of a number.
    unfoldable pub pg_format_sql : (Scm D → Bytes) → PgConn C → Scm D → Run (Scm D)
    unfolding pg_format_text
    pg_format_sql number_to_string pgc (timestamp t) = do
      out ← format_time cal t (codes "'%Y-%m-%d %H:%M:%S'")
      ok (string out)
    pg_format_sql number_to_string pgc (boolean true) = ok (string (codes "'t'"))
    pg_format_sql number_to_string pgc (boolean false) = ok (string (codes "'f'"))
    pg_format_sql number_to_string pgc (exact n) = ok (string (number_to_string (exact n)))
    pg_format_sql number_to_string pgc (inexact x) = ok (string (number_to_string (inexact x)))
    pg_format_sql number_to_string pgc (symbol s) = ok (pg_format_text pgc.conn s)
    pg_format_sql number_to_string pgc (string s) = ok (pg_format_text pgc.conn s)
    pg_format_sql number_to_string pgc null = ok (string (codes "NULL"))
    pg_format_sql number_to_string pgc (pair a d) = ok (string (codes "NULL"))
    pg_format_sql number_to_string pgc other = ok (string (codes "NULL"))

module _ {C R : Type 0} (pq : Libpq C R) where
  -- The last loop of `pg_exec`, with `i` fields to go, from the last to the first.
  abbrev pub field_loop : R → ℕ → List Bytes → List ℕ → List Bytes × List ℕ
  field_loop res zero fields types = (fields, types)
  field_loop res (suc i) fields types =
      field_loop res i (pq.fname res i ∷ fields) (pq.ftype res i ∷ types)

  -- `pg_exec`
  unfoldable pub pg_exec : PgConn C → Bytes → PgRes R
  unfolding field_loop
  pg_exec pgc query =
      let res = pq.exec pgc.conn query in
      let (fields, types) = field_loop res (pq.nfields res) [] [] in
      record {
        res = some res;
        cursor = 0;
        nfields = pq.nfields res;
        tuples = pq.ntuples res;
        cmd_tuples = atoi (pq.cmd_tuples res);
        status = pq.result_status res;
        types = types;
        fields = fields;
      }

  -- `pg_error_msg`; nothing for `#f`.
  unfoldable pub pg_error_msg : PgRes R → Option Bytes
  pg_error_msg pgr =
      if pgr.status == fatal_error || pgr.status == nonfatal_error
      then some (pq.error_message pgr.res)
      else none

module _ {R : Type 0} where
  unfoldable pub pg_clear : PgRes R → PgRes R
  pg_clear pgr = record pgr { res = none }

  unfoldable pub pg_done : PgRes R → Bool
  pg_done pgr = elim pgr.res [ none ↦ true | some r ↦ false ]

  unfoldable pub pg_fields : PgRes R → List Bytes
  pg_fields pgr = pgr.fields

  unfoldable pub pg_tuples : PgRes R → ℕ
  pg_tuples pgr = pgr.tuples

  unfoldable pub pg_cmd_tuples : PgRes R → ℤ
  pg_cmd_tuples pgr = pgr.cmd_tuples

module _ {D C R : Type 0} (dbl : Doubles D) (cal : Calendar) (pq : Libpq C R) where
  -- `pg_one_row`
  unfoldable pub pg_one_row : PgConn C → Bytes → Run (Option (Scm D))
  unfolding pg_exec build_row
  pg_one_row pgc query =
      let pgr = pg_exec pq pgc query in
      if ltb pgr.cursor pgr.tuples
      then (do row ← build_row dbl cal pq pgr; ok (some row))
      else ok none

-- `pg_cell`
unfoldable pub pg_cell : {D : Type 0} → Scm D → Bytes → Scm D
unfolding strcmp_zero
pg_cell row col_key = cell_of row col_key
