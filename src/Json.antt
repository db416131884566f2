-- ===== src/Json.antt =====
-- JSON, src/json.c: `json_build` and `parse`, between Scheme objects and the values of the library
-- jansson. Its text form, `json_dumps` and `json_loads`, is a parameter.
pub mod Mirror
pub mod Shape
pub mod RoundTrip
use gusher.Base.{
  ℕ, Bool, true, false, Bytes, List, [], ◌∷◌, ◌++◌, ◌&&◌, Option, none, some, Run, ok, fault,
  thrown, ◌>>=◌, ℤ, pos, to_int32, fits_int32, if◌then◌else◌,
}
use gusher.CString.{codes, strcmp_zero}
use gusher.Gtime.{GTime, Calendar, format_time}
use gusher.Scheme.{
  Scm, null, boolean, exact, inexact, string, symbol, pair, timestamp, other, is_list,
}

-- jansson's values. The members of an object are in the order in which `json_object_foreach` gives
-- them, the order of their insertion.
mutual
  pub data Json (D : Type 0) : Type 0 where
    jstring : Bytes → Json D
    jinteger : ℤ → Json D
    jreal : D → Json D
    jboolean : Bool → Json D
    jnull : Json D
    jarray : Items D → Json D
    jobject : Members D → Json D

  pub data Items (D : Type 0) : Type 0 where
    nil_array : Items D
    item : Json D → Items D → Items D

  pub data Members (D : Type 0) : Type 0 where
    nil_object : Members D
    member : Bytes → Json D → Members D → Members D

-- `json_object_set_new`: a key that is there keeps its place.
abbrev pub set_member : {D : Type 0} → Bytes → Json D → Members D → Members D
set_member key value nil_object = member key value nil_object
set_member key value (member k v rest) =
    let later = set_member key value rest in
    if strcmp_zero k key then member k value rest else member k v later

-- `make_key`: a symbol that is none raises an exception.
unfoldable pub make_key : {D : Type 0} → Scm D → Run Bytes
make_key (string s) = ok s
make_key (symbol s) = ok s
make_key _ = thrown

module _ {D : Type 0} (cal : Calendar) where
  -- `json_build`, with the loops over the cells of an object and of an array.
  unfoldable mutual
    unfolding make_key

    pub json_build : Scm D → Run (Json D)
    json_build null = ok jnull
    json_build (boolean b) = ok (jboolean b)
    json_build (exact n) = if fits_int32 n then ok (jinteger n) else thrown
    json_build (inexact x) = ok (jreal x)
    json_build (string s) = ok (jstring s)
    json_build (symbol s) = ok (jstring s)
    json_build (timestamp t) = do
      buf ← format_time cal t (codes "%Y-%m-%d %H:%M:%S")
      ok (jstring buf)
    json_build other = ok jnull
    json_build (pair (pair (symbol key) obj) node) =
        if is_list node
        then (do
          value ← json_build obj
          members ← build_members node (member key value nil_object)
          ok (jobject members))
        else ok jnull
    json_build (pair a node) =
        if is_list node
        then (do value ← json_build a; items ← build_items node; ok (jarray (item value items)))
        else ok jnull

    -- The cells of an object from `node` on, set in the members before them. A cell that holds no
    -- pair is taken apart all the same.
    pub build_members : Scm D → Members D → Run (Members D)
    build_members null members = ok members
    build_members (pair (pair k obj) node) members = do
      key ← make_key k
      value ← json_build obj
      build_members node (set_member key value members)
    build_members _ members = fault

    pub build_items : Scm D → Run (Items D)
    build_items null = ok nil_array
    build_items (pair a node) = do
      value ← json_build a
      items ← build_items node
      ok (item value items)
    build_items _ = fault

-- `parse`, with the loops over an array, from its end, and over an object, in front of `list`.
unfoldable mutual
  pub parse : {D : Type 0} → Json D → Scm D
  parse (jstring s) = string s
  parse (jinteger n) = exact (to_int32 n)
  parse (jreal x) = inexact x
  parse (jboolean b) = boolean b
  parse jnull = null
  parse (jarray items) = parse_items items
  parse (jobject members) = parse_members members null

  pub parse_items : {D : Type 0} → Items D → Scm D
  parse_items nil_array = null
  parse_items (item value items) = pair (parse value) (parse_items items)

  pub parse_members : {D : Type 0} → Members D → Scm D → Scm D
  parse_members nil_object list = list
  parse_members (member key value members) list =
      parse_members members (pair (pair (symbol key) (parse value)) list)

module _ {D : Type 0} (cal : Calendar) where
  -- `json_encode`, with `json_dumps`; nothing for `#f`.
  unfoldable pub json_encode : (Json D → Option Bytes) → Scm D → Run (Option Bytes)
  unfolding json_build
  json_encode json_dumps obj = do root ← json_build cal obj; ok (json_dumps root)

-- `json_decode`, with `json_loads`.
unfoldable pub json_decode : {D : Type 0} → (Bytes → Option (Json D)) → Bytes → Scm D
unfolding parse
json_decode json_loads text = elim (json_loads text) [
  | none ↦ boolean false
  | some root ↦ parse root
]
