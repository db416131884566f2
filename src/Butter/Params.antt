-- ===== src/Butter/Params.antt =====
-- What `query_value` of src/main.c finds in the query that `get_in` read.
use gusher.Base.{if◌then◌else◌, ◌≡◌, refl, ap, false, Bytes, List, [], ◌∷◌, reverse, some, ok}
use gusher.CString.{codes, strcmp_zero}
use gusher.Form.{assq_ref, get_in}
use gusher.Form.Body.{get_in-QueryText}
use gusher.Query.Parse.{QueryText}
use gusher.Request
use gusher.Scheme.{Scm, null, boolean, string, symbol, pair, cell_of}
use gusher.Butter.{query_value}

-- The association list that `parse_query` conses.
abbrev pub alist : {D : Type 0} → List (Bytes × Bytes) → Scm D
alist [] = null
alist ((name, value) ∷ fields) = pair (pair (symbol name) (string value)) (alist fields)

-- The first value of that name, or else `#f`.
abbrev pub first_value : {D : Type 0} → List (Bytes × Bytes) → Bytes → Scm D
first_value [] key = boolean false
first_value ((name, value) ∷ fields) key =
    let later = first_value fields key in if strcmp_zero name key then string value else later

cell_of-alist :
    (D : Type 0) (fields : List (Bytes × Bytes)) (key : Bytes)
    → ◌≡◌ {A = Scm D} (cell_of (alist fields) key) (first_value fields key)
cell_of-alist D [] key = refl
cell_of-alist D ((name, value) ∷ fields) key =
    ap (λ (r : Scm D). if strcmp_zero name key then string value else r)
      (cell_of-alist D fields key)

-- The request that a responder is called with: the query stands in front of what was read.
abbrev pub with_query : {D : Type 0} → List (Bytes × Bytes) → Scm D → Scm D
with_query fields request = pair (pair (symbol (codes "query")) (alist fields)) request

-- On a request whose query-string is a query string, get_in succeeds, and query_value on the
-- request with those fields as its query gives the value of the last field of the name asked for,
-- or `#f` where no field has it.
pub get_in-query_value :
    {D : Type 0} (request : Request.Request) (text : Bytes)
    → {fs : List (Bytes × Bytes)} (scm : Scm D) (key : Bytes)
    → assq_ref request (codes "query-string") ≡ some (Request.string text)
    → QueryText text fs
    → (fields : List (Bytes × Bytes)) × (get_in request ≡ ok (some fields))
      × (query_value (with_query fields scm) key ≡ first_value (reverse fs) key)
unfolding query_value strcmp_zero
get_in-query_value {D = D} request text {fs} scm key found q =
    (reverse fs, get_in-QueryText request text found q, cell_of-alist D (reverse fs) key)
