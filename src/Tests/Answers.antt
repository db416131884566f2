-- ===== src/Tests/Answers.antt =====
-- Answers and sessions of src/main.c.
use gusher.Base.{
  ℕ, zero, suc, false, ◌++◌, ◌≡◌, refl, Bytes, List, [], ◌∷◌, some, none, ok, Option, if◌then◌else◌,
  length, drop, All, arith,
}
use gusher.CString.{codes, strncmp_zero, strcmp_zero}
use gusher.Form.{assq_ref, to_locale_string}
use gusher.Handlers.{HandlerEntry, find_handler}
use gusher.Request.{Request, form, string}
use gusher.Response.{
  Wire, Reply, Outside, text, respond, request_handler, session_cookie, run_responder, set_cookie,
  hvalue, with_cookie,
}
use gusher.Response.Dump.{dump_request, dump_reply, dump_request-within}
use gusher.Response.Sent.{respond-answer, answer}
use gusher.Response.Session.{run_responder-session, CookiePat, IsHex, again}

abbrev digits : ℕ → Bytes
digits n = codes "1"

abbrev reply : Reply
reply = record {
  status = codes "200 OK";
  headers = (codes "a", text (codes "b")) ∷ [];
  body = codes "h";
}

-- A peer that takes one byte at a time.
abbrev slow_for : ℕ → List (Option ℕ)
slow_for zero = []
slow_for (suc n) = some 0 ∷ slow_for n

abbrev slow : List (Option ℕ)
slow = slow_for 52

abbrev peer : Wire
peer = record { sent = []; takes = slow }

answer-length : length (answer digits none reply) ≡ 45
unfolding hvalue with_cookie
answer-length = refl

respond-answer_example : (respond digits none reply peer).sent ≡ answer digits none reply
respond-answer_example =
    respond-answer digits none reply peer (omega arith, omega (arith, answer-length))

abbrev cookie_pat : Bytes → Option Bytes
cookie_pat buf = if strncmp_zero 9 (codes "GUSHERID=") buf then some (drop 9 buf) else none

abbrev uuid : Bytes
uuid = 1 ∷ 2 ∷ 3 ∷ 4 ∷ 5 ∷ 6 ∷ 7 ∷ 8 ∷ 9 ∷ 10 ∷ 11 ∷ 12 ∷ 13 ∷ 254 ∷ 255 ∷ 0 ∷ []

abbrev lib : Outside ℕ
unfolding strncmp_zero
lib = record { cookie_pat = cookie_pat; uuid_generate = uuid; call = λ h request. ok reply }

lib-CookiePat : CookiePat cookie_pat
unfolding strncmp_zero
lib-CookiePat = λ sid h l. refl

abbrev handlers : List (HandlerEntry ℕ)
handlers = record { path = codes "/"; handler = 1 } ∷ []

abbrev request : Request
request = (codes "url-path", string (codes "/a")) ∷ []

run_responder-session_example :
    (sid : Bytes) × (length sid ≡ 32)
    × All IsHex sid
    × (run_responder lib handlers request ≡ ok (some (set_cookie sid), reply))
    × (run_responder lib handlers (again sid request) ≡ ok (none, reply))
unfolding request_handler session_cookie assq_ref strcmp_zero to_locale_string find_handler
    strncmp_zero
run_responder-session_example =
    run_responder-session lib handlers request request 1 1 (codes "a") (codes "a") lib-CookiePat
      (omega arith) refl refl refl refl

dump_request-within_example :
    dump_request false ((codes "a", string (codes "b")) ∷ (codes "query", form []) ∷ [])
    ≡ ok (
        dump_reply (
          codes "sync request received"
          ++ (13 ∷ 10 ∷ (codes "a: b" ++ (10 ∷ (codes "query: NON-STRING" ++ 10 ∷ []))))))
dump_request-within_example =
    dump_request-within false ((codes "a", string (codes "b")) ∷ (codes "query", form []) ∷ [])
