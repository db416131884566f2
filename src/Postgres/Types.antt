-- ===== src/Postgres/Types.antt =====
-- The Scheme type of each value in a row of src/postgres.c, by the type of its column.
use gusher.Base.{ℕ, suc, ◌≡◌, true, false, Bytes, List, [], ◌∷◌, Option, ok, ◌⊎◌, All, ◌≢◌}
use gusher.Gtime.{Doubles, Calendar}
use gusher.Scheme.{Scm, null, boolean, exact, inexact, string, symbol, pair, timestamp, other}
use gusher.Postgres.{Libpq, decode_timestamp}
use gusher.Postgres.Rows.{Cells}

-- Kinds of Scheme objects.
pub data Kind : Type 0 where
  nothing : Kind
  real : Kind
  integer : Kind
  moment : Kind
  truth : Kind
  words : Kind
  neither : Kind

abbrev pub kind_of : {D : Type 0} → Scm D → Kind
kind_of null = nothing
kind_of (boolean b) = truth
kind_of (exact n) = integer
kind_of (inexact x) = real
kind_of (string s) = words
kind_of (symbol s) = neither
kind_of (pair a d) = neither
kind_of (timestamp t) = moment
kind_of other = neither

-- Types of PostgreSQL, as its catalogue lists them, and any other one by its number.
pub data PgType : Type 0 where
  float4 : PgType
  float8 : PgType
  numeric : PgType
  int2 : PgType
  int4 : PgType
  int8 : PgType
  timestamp_type : PgType
  timestamptz : PgType
  date : PgType
  bool : PgType
  unnamed : ℕ → PgType

-- The number of a type in the catalogue.
abbrev pub oid : PgType → ℕ
oid float4 = 700
oid float8 = 701
oid numeric = 1700
oid int2 = 21
oid int4 = 23
oid int8 = 20
oid timestamp_type = 1114
oid timestamptz = 1184
oid date = 1082
oid bool = 16
oid (unnamed n) = n

-- The kind of Scheme object that is meant to stand for the values of a type.
abbrev pub kind : PgType → Kind
kind float4 = real
kind float8 = real
kind numeric = real
kind int2 = integer
kind int4 = integer
kind int8 = integer
kind timestamp_type = moment
kind timestamptz = moment
kind date = moment
kind bool = truth
kind (unnamed n) = words

-- The numbers of the types named above.
abbrev pub named : List ℕ
named = 700 ∷ 701 ∷ 1700 ∷ 21 ∷ 23 ∷ 20 ∷ 1114 ∷ 1184 ∷ 1082 ∷ 16 ∷ []

-- A type without a name here has another number than the named ones, and is not the type 1000 of
-- arrays of Booleans.
abbrev pub IsPgType : PgType → Type 0
IsPgType (unnamed n) = All (λ k. n ≢ k) (1000 ∷ named)
IsPgType _ = Unit

-- A value of the kind of its column's type, or null, or `#f` for a date that the calendar refuses.
abbrev pub IsOfColumn : {D : Type 0} → PgType → Scm D → Type 0
IsOfColumn ty value =
    (value ≡ null) ⊎ ((kind_of value ≡ kind ty) ⊎ ((kind ty ≡ moment) × (value ≡ boolean false)))

abbrev pub AllOfColumns : {D : Type 0} → List PgType → Cells D → Type 0
AllOfColumns [] [] = Unit
AllOfColumns (ty ∷ types) ((name, value) ∷ cells) = IsOfColumn ty value × AllOfColumns types cells
AllOfColumns _ _ = ⊥

module _ {D C R : Type 0} (dbl : Doubles D) (cal : Calendar) (pq : Libpq C R) where
  -- A text that decode_timestamp can read, where the type is one of dates and times.
  abbrev pub IsRead : PgType → Bytes → Type 0
  IsRead ty text = (kind ty ≡ moment) → (value : Scm D) × (decode_timestamp dbl cal text ≡ ok value)

  -- Each field that is a date and is not null has a text that decode_timestamp can read.
  abbrev pub Readable : Option R → ℕ → ℕ → List PgType → Type 0
  Readable res cursor i [] = Unit
  Readable res cursor i (ty ∷ types) =
      ((pq.getisnull res cursor i ≡ true) ⊎ IsRead ty (pq.getvalue res cursor i))
      × Readable res cursor (suc i) types
