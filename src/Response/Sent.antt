-- ===== src/Response/Sent.antt =====
-- The bytes that an answer of src/main.c puts on a connection.
use gusher.Base.{
  ℕ, zero, suc, ◌+◌, ◌≤◌, ◌≡◌, refl, sym, ap, ◌∙◌, Bytes, List, [], ◌∷◌, ◌++◌, append_assoc,
  append-nil, Option, none, some, length, take, drop, length-append, length-drop, All, arith,
}
use gusher.CString.{codes}
use gusher.Response.{
  Wire, send_loop, send_all, crlf, HeaderValue, number, Headers, Reply, hvalue, send_header,
  send_headers, with_cookie, respond,
}

-- A call of `send` that takes something.
abbrev pub Took : Option ℕ → Type 0
Took none = ⊥
Took (some n) = Unit

-- The next calls of `send` give no error, and there are at least `n` of them.
abbrev pub IsOpen : ℕ → Wire → Type 0
IsOpen n w = All Took w.takes × (n ≤ length w.takes)

-- What a step sends on a connection that stays open for its bytes.
abbrev pub Sends : (Wire → Wire) → Bytes → Type 0
Sends f bytes =
    (w : Wire) (n : ℕ)
    → IsOpen (length bytes + n) w
    → ((f w).sent ≡ w.sent ++ bytes) × IsOpen n (f w)

rejoin : (n : ℕ) (msg : Bytes) → take n msg ++ drop n msg ≡ msg
rejoin zero msg = refl
rejoin (suc n) [] = refl
rejoin (suc n) (c ∷ msg) = ap (◌∷◌ c) (rejoin n msg)

send_loop-Sends :
    (takes : List (Option ℕ)) (msg sent : Bytes) (n : ℕ)
    → All Took takes
    → length msg + n ≤ length takes
    → ((send_loop takes msg sent).sent ≡ sent ++ msg) × IsOpen n (send_loop takes msg sent)
unfolding send_loop
send_loop-Sends takes [] sent n a l = (sym (append-nil sent), (a, omega arith))
send_loop-Sends [] (c ∷ msg) sent n a l = absurd (omega arith)
send_loop-Sends (none ∷ takes) (c ∷ msg) sent n a l = absurd a.0
send_loop-Sends (some k ∷ takes) (c ∷ msg) sent n a l =
    let (all, still) =
      send_loop-Sends takes (drop k msg) (sent ++ c ∷ take k msg) n a.1
        (omega (arith, length-drop k msg)) in
    (
      all
          ∙ append_assoc sent (c ∷ take k msg) (drop k msg)
          ∙ ap (λ m. sent ++ c ∷ m) (rejoin k msg),
      still,
    )

send_all-Sends : (msg : Bytes) → Sends (send_all msg) msg
unfolding send_all
send_all-Sends msg = λ w n h. send_loop-Sends w.takes msg w.sent n h.0 h.1

Sends-then :
    (f g : Wire → Wire) (a b : Bytes) → Sends f a → Sends g b → Sends (λ w. g (f w)) (a ++ b)
Sends-then f g a b p q = λ w n h.
    let (first, still) = p w (length b + n) (h.0, omega (arith, h.1, length-append a b)) in
    let (second, left) = q (f w) n still in
    (second ∙ ap (λ s. s ++ b) first ∙ append_assoc w.sent a b, left)

module _ (number_to_string : ℕ → Bytes) where
  -- A header line.
  abbrev pub header_line_bytes : Bytes × HeaderValue → Bytes
  header_line_bytes (hname, val) = hname ++ (codes ": " ++ (hvalue number_to_string val ++ crlf))

  abbrev pub header_block : Headers → Bytes
  header_block [] = crlf
  header_block (pair ∷ node) = header_line_bytes pair ++ header_block node

  send_header-Sends :
      (pair : Bytes × HeaderValue)
      → Sends (send_header number_to_string pair) (header_line_bytes pair)
  unfolding send_header
  send_header-Sends (hname, val) = Sends-then _ _ hname _ (send_all-Sends hname) (
      Sends-then _ _ (codes ": ") _ (send_all-Sends (codes ": ")) (
        Sends-then _ _ (hvalue number_to_string val) _
          (send_all-Sends (hvalue number_to_string val)) (send_all-Sends crlf)))

  send_headers-Sends :
      (headers : Headers) → Sends (send_headers number_to_string headers) (header_block headers)
  unfolding send_headers
  send_headers-Sends [] = send_all-Sends crlf
  send_headers-Sends (pair ∷ node) =
      Sends-then (send_header number_to_string pair) (send_headers number_to_string node)
        (header_line_bytes pair) (header_block node) (send_header-Sends pair)
        (send_headers-Sends node)

  -- The status line, the headers with the body's length in front, an empty line, and the body.
  abbrev pub answer : Option (Bytes × HeaderValue) → Reply → Bytes
  answer cookie_header reply =
      codes "HTTP/1.1 "
      ++ (reply.status
          ++ (crlf
              ++ (header_block (
                    (codes "content-length", number (length reply.body))
                    ∷ with_cookie cookie_header reply.headers)
                  ++ reply.body)))

  -- On a connection that takes at least one byte in each of enough calls of send, the last part of
  -- process_request sends exactly the status line, the body's length, the cookie where there is
  -- one, the reply's headers in order, an empty line, and the body.
  pub respond-answer :
      (cookie_header : Option (Bytes × HeaderValue)) (reply : Reply) (w : Wire)
      → IsOpen (length (answer cookie_header reply)) w
      → (respond number_to_string cookie_header reply w).sent ≡ w.sent ++ answer cookie_header reply
  unfolding respond
  respond-answer cookie_header reply w h =
      let headers =
        (codes "content-length", number (length reply.body))
        ∷ with_cookie cookie_header reply.headers in
      let whole : Sends (respond number_to_string cookie_header reply)
          (answer cookie_header reply) =
        Sends-then _ _ (codes "HTTP/1.1 ") _ (send_all-Sends (codes "HTTP/1.1 ")) (
          Sends-then _ _ reply.status _ (send_all-Sends reply.status) (
            Sends-then _ _ crlf _ (send_all-Sends crlf) (
              Sends-then (send_headers number_to_string headers) (send_all reply.body)
                (header_block headers) reply.body (send_headers-Sends headers)
                (send_all-Sends reply.body)))) in
      (whole w 0 (h.0, omega (arith, h.1))).0
