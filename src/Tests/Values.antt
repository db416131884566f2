-- ===== src/Tests/Values.antt =====
-- JSON values of src/json.c.
use gusher.Base.{ℕ, ◌≡◌, refl, [], ◌∷◌, ok, pos, true}
use gusher.CString.{codes, strcmp_zero}
use gusher.Base.{Bytes, List, some, arith}
use gusher.Butter.{string_cat, query_value}
use gusher.Butter.Cat.{string_cat-leaves}
use gusher.Butter.Params.{with_query, get_in-query_value}
use gusher.Form.{assq_ref, get_in}
use gusher.Query.Decode.{plain, done}
use gusher.Query.Parse.{QueryText, field, last, more}
use gusher.Request
use gusher.Scheme.{Scm, null, boolean, exact, string, symbol, pair}
use gusher.Json.{
  Json, jinteger, jboolean, jnull, jarray, jobject, nil_array, item, nil_object, member, json_build,
  parse,
}
use gusher.Json.Mirror.{IsPlain, mirror}
use gusher.Json.RoundTrip.{json_build-parse}
use gusher.Tests.Clock.{calendar}

-- {"a": [7, {}], "b": true}
abbrev value : Json ℕ
value = jobject (
    member (codes "a") (jarray (item (jinteger (pos 7)) (item (jobject nil_object) nil_array)))
      (member (codes "b") (jboolean true) nil_object))

value-IsPlain : IsPlain value
unfolding IsPlain strcmp_zero
value-IsPlain = ((refl, (tt, tt)), refl, (tt, refl, tt))

json_build-parse_example :
    json_build calendar (parse value)
    ≡ ok (
        jobject (
          member (codes "b") (jboolean true) (
            member
              (codes "a")
              (jarray (item (jinteger (pos 7)) (item jnull nil_array)))
              nil_object)))
unfolding mirror
json_build-parse_example = json_build-parse calendar value value-IsPlain

abbrev nested : Scm ℕ
nested = pair (string (codes "a")) (
    pair (pair (symbol (codes "b")) (pair (string (codes "c")) null))
      (pair (boolean true) (pair (exact (pos 7)) null)))

string_cat-leaves_example :
    string_cat (λ n. codes "7") (codes ", ") nested ≡ ok (codes "a, b, c, 7")
string_cat-leaves_example =
    string_cat-leaves (λ n. codes "7") (codes ", ") nested ((refl, tt, tt, tt))

abbrev query : QueryText (codes "x=1&x=2") ((codes "x", codes "1") ∷ (codes "x", codes "2") ∷ [])
query =
    more {s = codes "x=1"} {t = codes "x=2"} refl refl
      (field (codes "x") (codes "1") (codes "1") refl refl (omega arith) (omega arith)
        (plain (omega arith) (omega arith) (omega arith) done))
      (omega arith)
      (last
        (field (codes "x") (codes "2") (codes "2") refl refl (omega arith) (omega arith)
          (plain (omega arith) (omega arith) (omega arith) done))
        (omega arith))

abbrev rest_of : Scm ℕ
rest_of = null

get_in-query_value_example :
    (fields : List (Bytes × Bytes)) × (get_in
        ((codes "query-string", Request.string (codes "x=1&x=2")) ∷ [])
      ≡ ok (some fields))
    × (query_value (with_query fields rest_of) (codes "x") ≡ string (codes "2"))
unfolding assq_ref strcmp_zero
get_in-query_value_example =
    get_in-query_value ((codes "query-string", Request.string (codes "x=1&x=2")) ∷ [])
      (codes "x=1&x=2") rest_of (codes "x") refl query
