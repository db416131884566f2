-- ===== src/Tests/Transfers.antt =====
-- Transfers of src/http.c.
use gusher.Base.{
  ℕ, ◌≡◌, refl, Bytes, List, [], ◌∷◌, ◌++◌, map, false, none, some, ok, fault, thrown, Run, ltb,
  ◌>>=◌, if◌then◌else◌, pos, arith, is_space, to_lower, is_upper,
}
use gusher.Buffer.{store}
use gusher.CString.{codes, split_at, strcmp_zero}
use gusher.Scheme.{null, exact, string}
use gusher.Xml.{process_body}
use gusher.Http.Answer.{
  Transfer, Handle, Answer, http_get_master, get_auth_creds, post_string, header_handler,
}
use gusher.Http.Answer.Body.{Event, line, piece, call_of, http_get_master-events}

abbrev plain : Bytes → Bytes
plain s = s

-- Bytes of ASCII are UTF-8; on any other byte this decoder raises its exception.
abbrev ascii : Bytes → Run Bytes
ascii [] = ok []
ascii (c ∷ s) = do s ← ascii s; if ltb c 128 then ok (c ∷ s) else thrown

-- A header, and a body in two pieces.
abbrev events : List Event
events = line (codes "X-Kind: a b" ++ 13 ∷ 10 ∷ []) 0 ∷ piece (codes "ab") ∷ piece (codes "c") ∷ []

abbrev curl : Handle → Transfer
curl handle = record { calls = map call_of events; res = 0; rescode = pos 200 }

abbrev handle : Handle
handle = record { url = codes "u"; post = some (codes "old"); userpwd = some (codes "me") }

abbrev answer : Answer ℕ
answer = record {
  headers = (codes "status", exact (pos 200)) ∷ (codes "x-kind", string (codes "a b")) ∷ [];
  body = string (codes "abc");
}

http_get_master-events_example :
    http_get_master ascii (λ s. fault) (λ s. none) plain curl false null handle
    ≡ ok (some answer, record handle { post = none })
unfolding get_auth_creds post_string split_at is_space to_lower is_upper strcmp_zero process_body
http_get_master-events_example =
    http_get_master-events ascii (λ s. fault) (λ s. none) plain curl false null handle none none
      events 0 (pos 200) refl refl refl (omega arith, (tt, (tt, tt)))

-- Where curl has no room behind a line, the NUL is written outside.
no_room : header_handler {D = ℕ} ascii (codes "A: b") 1 4 [] ≡ fault
unfolding header_handler store
no_room = refl
