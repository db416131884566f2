-- ===== src/Tests/Forms.antt =====
-- Form data and the searches of src/main.c.
use gusher.Base.{
  ◌≡◌, refl, [], ◌∷◌, ◌++◌, false, none, ok, arith, is_digit, is_space, to_upper, is_lower,
}
use gusher.CString.{codes, strcmp_zero}
use gusher.Query.Parse.{QueryText, field, word, last, more}
use gusher.Query.Decode.{done, space}
use gusher.Request.{Request, string}
use gusher.Form.{assq_ref, atoi, form_urlencoded, strcasestr, strcasestr_loop}
use gusher.Form.Body.{form_urlencoded-QueryText}

abbrev query : QueryText (codes "f&x=+") ((codes "x", codes " ") ∷ [])
query = more {s = codes "f"} {t = codes "x=+"} refl refl (word refl (omega arith)) (omega arith) (
    last
      (field (codes "x") (codes " ") (codes "+") refl refl (omega arith) (omega arith)
        (space refl refl done))
      (omega arith))

abbrev request : Request
request =
    (codes "content-length", string (codes "5"))
    ∷ (codes "query-string", string (codes "f&x=+"))
    ∷ []

form_urlencoded-QueryText_example :
    form_urlencoded (λ n. 1) false request (codes "f&x=+" ++ codes "later")
    ≡ ok ((codes "x", codes " ") ∷ [], codes "later")
unfolding assq_ref strcmp_zero atoi is_digit is_space
form_urlencoded-QueryText_example =
    form_urlencoded-QueryText (λ n. 1) false request (codes "5") (codes "f&x=+") (codes "later")
      refl refl (omega arith) query

-- The search does not start again inside what it has matched.
strcasestr_misses : strcasestr (codes "aab") (codes "ab") ≡ none
unfolding strcasestr strcasestr_loop to_upper is_lower
strcasestr_misses = refl
