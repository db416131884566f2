-- ===== src/Postgres/Stream.antt =====
-- A result of src/postgres.c as the stream of its rows: the abstract view forgets the cursor, the
-- row count and the result's address.
use gusher.Base.{
  ◌+◌, ◌-◌, ◌<◌, ◌≤◌, ◌≡◌, refl, sym, ap, ◌∙◌, true, false, List, [], ◌∷◌, ◌++◌, append_assoc,
  append-nil, map, reverse, leb, Option, none, some, Run, ok, ◌>>=◌, length, arith,
}
use gusher.Gtime.{Doubles, Calendar}
use gusher.Scheme.{Scm}
use gusher.Postgres.{
  Libpq, PgRes, build_row, pg_get_row, pg_next_row, map_loop, mapped, pg_map_rows, pg_done,
}
use mathlib.Core.List.{reverse-cons, reverse-reverse}

-- A call on a result: the row under the cursor, one row at a time, or all rows that are left.
pub data Call (D : Type 0) : Type 0 where
  get_row : Call D
  next_row : Call D
  map_rows : (Scm D → Scm D) → Call D

pub data Answer (D : Type 0) : Type 0 where
  row : Option (Scm D) → Answer D
  rows : List (Scm D) → Answer D

-- The calls on a stream of rows.
abbrev pub spec : {D : Type 0} → Call D → List (Scm D) → Answer D × List (Scm D)
spec get_row [] = (row none, [])
spec get_row (r ∷ rs) = (row (some r), rs)
spec next_row [] = (row none, [])
spec next_row (r ∷ rs) = (row (some r), rs)
spec (map_rows f) rs = (rows (map f rs), [])

abbrev pub spec_run : {D : Type 0} → List (Call D) → List (Scm D) → List (Answer D) × List (Scm D)
spec_run [] rs = ([], rs)
spec_run (c ∷ cs) rs =
    let (answer, rest) = spec c rs in
    let (answers, left) = spec_run cs rest in (answer ∷ answers, left)

module _ {D C R : Type 0} (dbl : Doubles D) (cal : Calendar) (pq : Libpq C R) where
  abbrev as_row : Option (Scm D) × PgRes R → Run (Answer D × PgRes R)
  as_row (r, pgr) = ok (row r, pgr)

  abbrev as_rows : List (Scm D) × PgRes R → Run (Answer D × PgRes R)
  as_rows (rs, pgr) = ok (rows rs, pgr)

  abbrev pub call : Call D → PgRes R → Run (Answer D × PgRes R)
  call get_row pgr = pg_get_row dbl cal pq pgr >>= as_row
  call next_row pgr = pg_next_row dbl cal pq pgr >>= as_row
  call (map_rows f) pgr = pg_map_rows dbl cal pq (some (λ r. ok (f r))) pgr >>= as_rows

  abbrev pub run : List (Call D) → PgRes R → Run (List (Answer D) × PgRes R)
  run [] pgr = ok ([], pgr)
  run (c ∷ cs) pgr = do
    (answer, pgr) ← call c pgr
    (answers, pgr) ← run cs pgr
    ok (answer ∷ answers, pgr)

  abbrev pub advanced : PgRes R → PgRes R
  advanced pgr = record pgr { cursor = pgr.cursor + 1 }

  -- The rows that the result still has: each is built from a result that was not cleared.
  abbrev pub Streams : PgRes R → List (Scm D) → Type 0
  Streams pgr [] = pgr.tuples ≤ pgr.cursor
  Streams pgr (r ∷ rs) =
      (pgr.cursor < pgr.tuples)
      × (pg_done pgr ≡ false)
      × (build_row dbl cal pq pgr ≡ ok r)
      × Streams (advanced pgr) rs

  Streams-length :
      (pgr : PgRes R) (rs : List (Scm D)) → Streams pgr rs → pgr.tuples - pgr.cursor ≡ length rs
  Streams-length pgr [] s = omega arith
  Streams-length pgr (r ∷ rs) s = omega (arith, Streams-length (advanced pgr) rs s.3, s.0)

  map_loop-Streams :
      (f : Scm D → Scm D) (rs : List (Scm D)) (pgr : PgRes R) (bag : List (Scm D))
      → Streams pgr rs
      → (pgr' : PgRes R) × (map_loop dbl cal pq (mapped (some (λ r. ok (f r)))) (length rs) pgr bag
          ≡ ok (reverse (map f rs) ++ bag, pgr'))
        × (pgr'.tuples ≤ pgr'.cursor)
  unfolding map_loop
  map_loop-Streams f [] pgr bag s = (pgr, refl, s)
  map_loop-Streams f (r ∷ rs) pgr bag s =
      let (pgr', run, end) = map_loop-Streams f rs (advanced pgr) (f r ∷ bag) s.3 in
      (
        pgr',
        rw s.2 (
            run
            ∙ ap (λ b. ok (b, pgr'))
                (sym (append_assoc (reverse (map f rs)) (f r ∷ []) bag)
                  ∙ ap (λ b. b ++ bag) (sym (reverse-cons (f r) (map f rs))))),
        end,
      )

  -- What a call does to a result: the stream's answer, and a result for what is left of the stream.
  abbrev Does : Call D → PgRes R → List (Scm D) → Type 0
  Does c pgr rs =
      (pgr' : PgRes R) × (call c pgr ≡ ok ((spec c rs).0, pgr')) × Streams pgr' (spec c rs).1

  call_lem : (c : Call D) (pgr : PgRes R) (rs : List (Scm D)) → Streams pgr rs → Does c pgr rs
  unfolding pg_get_row pg_next_row pg_map_rows
  call_lem get_row pgr [] s =
      let end : leb pgr.tuples pgr.cursor ≡ true = ground arith in (pgr, rw end refl, s)
  call_lem get_row pgr (r ∷ rs) s =
      let more : leb pgr.tuples pgr.cursor ≡ false = ground (arith, s.0) in
      (advanced pgr, rw (more, s.2) refl, s.3)
  call_lem next_row pgr [] s =
      let end : leb pgr.tuples pgr.cursor ≡ true = ground arith in
      (record pgr { res = none }, rw end refl, s)
  call_lem next_row pgr (r ∷ rs) s =
      let more : leb pgr.tuples pgr.cursor ≡ false = ground (arith, s.0) in
      (advanced pgr, rw (more, s.2) refl, s.3)
  call_lem (map_rows f) pgr rs s =
      let (pgr', run, end) = map_loop-Streams f rs pgr [] s in
      (
        record pgr' { res = none },
        rw (Streams-length pgr rs s, run)
            (ap (λ b. ok (rows b, record pgr' { res = none }))
              (ap reverse (append-nil (reverse (map f rs))) ∙ reverse-reverse (map f rs))),
        end,
      )

  -- A result whose rows can be built refines the stream of those rows: any sequence of pg_get_row,
  -- pg_next_row and pg_map_rows answers as the same calls on the list of rows do, each row once
  -- and in order and then none, and no row is built from a result that was cleared.
  pub run-spec_run :
      (cs : List (Call D)) (pgr : PgRes R) (rs : List (Scm D))
      → Streams pgr rs
      → (pgr' : PgRes R) × (run cs pgr ≡ ok ((spec_run cs rs).0, pgr'))
        × Streams pgr' (spec_run cs rs).1
  run-spec_run [] pgr rs s = (pgr, refl, s)
  run-spec_run (c ∷ cs) pgr rs s =
      let (pgr1, e1, s1) = call_lem c pgr rs s in
      let (pgr2, e2, s2) = run-spec_run cs pgr1 (spec c rs).1 s1 in (pgr2, rw (e1, e2) refl, s2)
