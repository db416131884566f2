-- ===== src/Tests/Queries.antt =====
-- A database result of src/postgres.c: two rows of one field.
use gusher.Base.{
  ℕ, ◌≡◌, refl, false, [], ◌∷◌, some, none, ok, pos, ◌==◌, arith, is_digit, is_space, if◌then◌else◌,
}
use gusher.CString.{codes}
use gusher.Form.{atoi}
use gusher.Scheme.{Scm, null, exact, symbol, pair}
use gusher.Postgres.{Libpq, PgConn, PgRes, pg_exec, build_row, field_value, pg_decode, pg_done}
use gusher.Postgres.Stream.{get_row, next_row, map_rows, row, rows, run, Streams, run-spec_run}
use gusher.Tests.Clock.{seconds, calendar}

abbrev pq : Libpq ℕ ℕ
pq = record {
  exec = λ conn query. 5;
  ntuples = λ res. 2;
  nfields = λ res. 1;
  cmd_tuples = λ res. [];
  result_status = λ res. 2;
  error_message = λ res. [];
  fname = λ res i. codes "a";
  ftype = λ res i. 23;
  getisnull = λ res j i. false;
  getvalue = λ res j i. if j == 0 then codes "7" else codes "8";
  escape_literal = λ conn s. s;
}

abbrev conn : PgConn ℕ
conn = record { conn = some 1 }

abbrev result : PgRes ℕ
result = record {
  res = some 5;
  cursor = 0;
  nfields = 1;
  tuples = 2;
  cmd_tuples = pos 0;
  status = 2;
  types = 23 ∷ [];
  fields = codes "a" ∷ [];
}

executed : pg_exec pq conn (codes "select a from t") ≡ result
unfolding pg_exec atoi
executed = refl

abbrev row_of : ℕ → Scm ℕ
row_of n = pair (pair (symbol (codes "a")) (exact (pos n))) null

result-Streams : Streams seconds calendar pq result (row_of 7 ∷ row_of 8 ∷ [])
unfolding build_row field_value pg_decode atoi is_digit is_space pg_done
result-Streams = (omega arith, refl, refl, (omega arith, refl, refl, omega arith))

run-spec_run_example :
    (after : PgRes ℕ) × (run seconds calendar pq
        (get_row ∷ map_rows (λ r. pair r null) ∷ next_row ∷ [])
        result
      ≡ ok (row (some (row_of 7)) ∷ rows (pair (row_of 8) null ∷ []) ∷ row none ∷ [], after))
    × Streams seconds calendar pq after []
run-spec_run_example =
    run-spec_run seconds calendar pq (get_row ∷ map_rows (λ r. pair r null) ∷ next_row ∷ []) result
      (row_of 7 ∷ row_of 8 ∷ []) result-Streams

-- Two columns: a number, and a date that is null.
abbrev two_columns : Libpq ℕ ℕ
two_columns = record pq {
  nfields = λ res. 2;
  ftype = λ res i. if i == 0 then 23 else 1184;
  getisnull = λ res j i. i == 1;
}
