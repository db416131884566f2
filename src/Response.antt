-- ===== src/Response.antt =====
-- The answer to a request, src/main.c: `run_responder`, the replies that the server makes, and the
-- bytes that `process_request` sends.
pub mod Dump
pub mod Sent
pub mod Session
use gusher.Base.{
  ℕ, zero, suc, ◌+◌, ◌/◌, ◌%◌, min, Bytes, List, [], ◌∷◌, ◌++◌, Option, none, some, Run, ok, ◌>>=◌,
  or_fault, get_elem?, length, take, drop,
}
use gusher.CString.{codes}
use gusher.Form.{assq_ref, to_locale_string}
use gusher.Handlers.{HandlerEntry, find_handler}
use gusher.Request.{Request, Value, string}

-- A connection to write to: the bytes sent, and what the next calls of `send` give: how many bytes
-- past the first are taken, where there are so many, or an error. After the last it is an error.
pub record Wire : Type 0 where
  pub sent : Bytes
  pub takes : List (Option ℕ)

send_loop : List (Option ℕ) → Bytes → Bytes → Wire
send_loop takes [] sent = record { sent = sent; takes = takes }
send_loop [] (c ∷ msg) sent = record { sent = sent; takes = [] }
send_loop (none ∷ takes) (c ∷ msg) sent = record { sent = sent; takes = takes }
send_loop (some n ∷ takes) (c ∷ msg) sent = send_loop takes (drop n msg) (sent ++ c ∷ take n msg)

-- `send_all(sock, msg)`
unfoldable pub send_all : Bytes → Wire → Wire
unfolding send_loop
send_all msg w = send_loop w.takes msg w.sent

abbrev pub crlf : Bytes
crlf = 13 ∷ 10 ∷ []

-- A value in a reply's headers; `other` is what is sent as nothing.
pub data HeaderValue : Type 0 where
  text : Bytes → HeaderValue
  number : ℕ → HeaderValue
  name : Bytes → HeaderValue
  other : HeaderValue

abbrev pub Headers : Type 0
Headers = List (Bytes × HeaderValue)

-- The list of three that a responder returns.
pub record Reply : Type 0 where
  pub status : Bytes
  pub headers : Headers
  pub body : Bytes

unfoldable pub default_not_found : Reply
default_not_found = record {
  status = codes "404 Not Found";
  headers = (codes "content-type", text (codes "text/plain")) ∷ [];
  body = codes "Not Found";
}

unfoldable pub simple_http_response : Bytes → Bytes → Reply
simple_http_response mime_type content = record {
  status = codes "200 OK";
  headers = (codes "content-type", text mime_type) ∷ [];
  body = content;
}

unfoldable pub json_http_response : Bytes → Reply
json_http_response enc_content = record {
  status = codes "200 OK";
  headers =
      (codes "content-type", text (codes "application/json; charset=UTF-8"))
      ∷ (codes "cache-control", text (codes "max-age=0, must-revalidate"))
      ∷ [];
  body = enc_content;
}

-- `hex`
abbrev hex : Bytes
hex = codes "0123456789abcdef"

-- The loop of `put_uuid`, on the bytes that the UUID library generates.
unfoldable pub put_uuid : Bytes → Run Bytes
put_uuid [] = ok []
put_uuid (b ∷ out) = do
  high ← or_fault (get_elem? hex (b / 16))
  low ← or_fault (get_elem? hex (b % 16))
  rest ← put_uuid out
  ok (high ∷ low ∷ rest)

-- `if (cookie_header != SCM_BOOL_F) …`
unfoldable pub with_cookie : Option (Bytes × HeaderValue) → Headers → Headers
with_cookie none headers = headers
with_cookie (some cookie_header) headers = cookie_header ∷ headers

-- The text of a number, as Guile prints it in base 10.
module _ (number_to_string : ℕ → Bytes) where
  -- What `send_headers` sends of a value.
  unfoldable pub hvalue : HeaderValue → Bytes
  hvalue (text s) = s
  hvalue (number n) = number_to_string n
  hvalue (name s) = s
  hvalue other = []

  unfoldable pub send_header : Bytes × HeaderValue → Wire → Wire
  unfolding hvalue
  send_header (hname, val) w =
      let w = send_all hname w in
      let w = send_all (codes ": ") w in let w = send_all (hvalue val) w in send_all crlf w

  unfoldable pub send_headers : Headers → Wire → Wire
  unfolding send_header
  send_headers [] w = send_all crlf w
  send_headers (pair ∷ node) w = send_headers node (send_header pair w)

  -- The last part of `process_request`, on a reply without a NUL.
  unfoldable pub respond : Option (Bytes × HeaderValue) → Reply → Wire → Wire
  unfolding send_headers with_cookie
  respond cookie_header reply w =
      let w = send_all (codes "HTTP/1.1 ") w in
      let w = send_all reply.status w in
      let w = send_all crlf w in
      let headers =
        (codes "content-length", number (length reply.body))
        ∷ with_cookie cookie_header reply.headers in
      let w = send_headers headers w in send_all reply.body w

-- What the server takes from outside: the match of the cookie's pattern in a text, the bytes of a
-- new UUID, and the run of a procedure on a request.
pub record Outside (H : Type 0) : Type 0 where
  pub cookie_pat : Bytes → Option Bytes
  pub uuid_generate : Bytes
  pub call : H → Request → Run Reply

-- The header that sets a session's cookie.
abbrev pub set_cookie : Bytes → Bytes × HeaderValue
set_cookie cookie = (codes "set-cookie", text (codes "GUSHERID=" ++ (cookie ++ codes "; Path=/")))

-- The request that a responder is called with.
abbrev pub with_session : Bytes → Bytes → Request → Request
with_session path_info cookie request =
    (codes "path-info", string path_info) ∷ (codes "session", string cookie) ∷ request

module _ {H : Type 0} (lib : Outside H) where
  cookie_of : Option Value → Run (Option Bytes)
  cookie_of none = ok none
  cookie_of (some dough) = do buf ← to_locale_string dough; ok (lib.cookie_pat buf)

  unfoldable pub session_cookie : Request → Run (Option Bytes)
  unfolding cookie_of
  session_cookie request = cookie_of (assq_ref request (codes "cookie"))

  path_handler : List (HandlerEntry H) → Option Value → Run (Option (H × Bytes))
  path_handler handlers none = ok none
  path_handler handlers (some path) = do
    spath ← to_locale_string path
    ok (find_handler handlers spath)

  -- `find_handler(request)`
  unfoldable pub request_handler : List (HandlerEntry H) → Request → Run (Option (H × Bytes))
  unfolding path_handler
  request_handler handlers request = path_handler handlers (assq_ref request (codes "url-path"))

  -- The session of a request, and the header that sets it where it is new.
  session_of : Option Bytes → Run (Bytes × Option (Bytes × HeaderValue))
  session_of (some cookie) = ok (cookie, none)
  session_of none = do cookie ← put_uuid lib.uuid_generate; ok (cookie, some (set_cookie cookie))

  run_handler : Option (H × Bytes) → Request → Run (Option (Bytes × HeaderValue) × Reply)
  unfolding default_not_found
  run_handler none request = ok (none, default_not_found)
  run_handler (some (handler, path_info)) request = do
    found ← session_cookie request
    (cookie, cookie_header) ← session_of found
    reply ← lib.call handler (with_session path_info cookie request)
    ok (cookie_header, reply)

  unfoldable pub run_responder :
      List (HandlerEntry H) → Request → Run (Option (Bytes × HeaderValue) × Reply)
  unfolding run_handler session_of
  run_responder handlers request = do
    handler ← request_handler handlers request
    run_handler handler request
