-- ===== src/Response/Dump.antt =====
-- The answer that shows a request, `dump_request` of src/main.c, with the buffer that it is written
-- to.
use gusher.Base.{
  ℕ, ◌+◌, ◌≤◌, ◌<◌, ◌≡◌, refl, sym, ap, ◌∙◌, Bool, true, false, Bytes, [], ◌∷◌, ◌++◌, append_assoc,
  append-nil, length, length-append, leb, Bool-cases, inl, inr, if◌then◌else◌, Run, ok, fault,
  ◌>>=◌, arith,
}
use gusher.CString.{codes}
use gusher.Request.{Request, Value, string, symbol, integer, form}
use gusher.Response.{Reply, text}

-- `char buf[4096];`
abbrev pub dump_size : ℕ
dump_size = 4096

-- `strcat(buf, s)`: the string and its NUL must fit.
unfoldable pub strcat : Bytes → Bytes → Run Bytes
strcat buf s = if leb (length buf + length s + 1) dump_size then ok (buf ++ s) else fault

abbrev pub shown : Value → Bytes
shown (string s) = s
shown (symbol s) = codes "NON-STRING"
shown (integer n) = codes "NON-STRING"
shown (form query) = codes "NON-STRING"

abbrev pub received : Bool → Bytes
received true = codes "threaded request received" ++ 13 ∷ 10 ∷ []
received false = codes "sync request received" ++ 13 ∷ 10 ∷ []

-- The loop over the request.
unfoldable pub dump_loop : Request → Bytes → Run Bytes
unfolding strcat
dump_loop [] buf = ok buf
dump_loop ((key, value) ∷ node) buf = do
  buf ← strcat buf key
  buf ← strcat buf (codes ": ")
  buf ← strcat buf (shown value)
  buf ← strcat buf (10 ∷ [])
  dump_loop node buf

abbrev pub dump_reply : Bytes → Reply
dump_reply buf = record {
  status = codes "404 Not Found";
  headers = (codes "content-type", text (codes "text/plain")) ∷ [];
  body = buf;
}

-- `dump_request(request)`
unfoldable pub dump_request : Bool → Request → Run Reply
unfolding strcat dump_loop
dump_request threading request = do
  buf ← strcat [] (received threading)
  buf ← dump_loop request buf
  ok (dump_reply buf)

-- The text for a request.
abbrev pub dump_lines : Request → Bytes
dump_lines [] = []
dump_lines ((key, value) ∷ node) = key ++ (codes ": " ++ (shown value ++ (10 ∷ dump_lines node)))

-- A text that fits, or a write outside the buffer.
abbrev pub within : {A : Type 0} → Bytes → (Bytes → A) → Run A
within buf make = if leb (length buf + 1) dump_size then ok (make buf) else fault

within-fits :
    {A : Type 0} (buf : Bytes) (make : Bytes → A)
    → length buf + 1 ≤ dump_size
    → within buf make ≡ ok (make buf)
within-fits buf make h = ground arith

strcat-within :
    {A : Type 0} (make : Bytes → A) (buf s rest : Bytes) (next : Bytes → Run A)
    → (length (buf ++ s) + 1 ≤ dump_size → next (buf ++ s) ≡ within ((buf ++ s) ++ rest) make)
    → (strcat buf s >>= next) ≡ within (buf ++ (s ++ rest)) make
unfolding strcat
strcat-within make buf s rest next h =
    elim (Bool-cases (leb (length buf + length s + 1) dump_size)) [
      | inl q ↦
          let fits : length buf + length s + 1 ≤ dump_size = ground arith in
          rw q (
            h (omega (arith, fits, length-append buf s))
            ∙ ap (λ b. within b make) (append_assoc buf s rest))
      | inr q ↦
          let full : dump_size < length buf + length s + 1 = ground arith in
          let over : leb (length (buf ++ (s ++ rest)) + 1) dump_size ≡ false =
            ground (arith, full, length-append buf (s ++ rest), length-append s rest) in
          rw (q, over) refl
    ]

dump_loop-within :
    (node : Request) (buf : Bytes)
    → length buf + 1 ≤ dump_size
    → dump_loop node buf ≡ within (buf ++ dump_lines node) (λ b. b)
unfolding dump_loop
dump_loop-within [] buf h = sym (rw (append-nil buf) (within-fits buf (λ b. b) h))
dump_loop-within ((key, value) ∷ node) buf h =
    strcat-within (λ b. b) buf key _ _
      λ h.
        strcat-within (λ b. b) (buf ++ key) (codes ": ") _ _
          λ h.
            strcat-within (λ b. b) ((buf ++ key) ++ codes ": ") (shown value) _ _
              λ h.
                strcat-within (λ b. b) (((buf ++ key) ++ codes ": ") ++ shown value) (10 ∷ [])
                  (dump_lines node) _
                  λ h.
                    dump_loop-within node ((((buf ++ key) ++ codes ": ") ++ shown value) ++ 10 ∷ [])
                      h

within-then :
    (buf : Bytes) → (within buf (λ b. b) >>= λ buf. ok (dump_reply buf)) ≡ within buf dump_reply
within-then buf = elim (Bool-cases (leb (length buf + 1) dump_size)) [
  | inl q ↦ rw q refl
  | inr q ↦ rw q refl
]

-- dump_request answers with the line that tells how the request was received and a line for each
-- entry of the request, its name, a colon, and its string or NON-STRING, just where that text and
-- its NUL fit into the buffer of 4096 bytes; where they do not, one of its strcat writes outside
-- the buffer.
pub dump_request-within :
    (threading : Bool) (request : Request)
    → dump_request threading request ≡ within (received threading ++ dump_lines request) dump_reply
unfolding dump_request
dump_request-within threading request =
    strcat-within dump_reply [] (received threading) (dump_lines request) _ λ h.
      ap (λ run. run >>= λ buf. ok (dump_reply buf))
        (dump_loop-within request (received threading) h)
      ∙ within-then (received threading ++ dump_lines request)
