-- ===== src/Request.antt =====
-- The reading of a request, src/main.c: `mygetline`, `start_request`, `downcase` and the loop of
-- `process_request` that builds the request, over the line buffer that they change in place.
pub mod Line
pub mod Start
pub mod Header
pub mod Whole
use gusher.Base.{
  ℕ, zero, suc, ◌+◌, ◌-◌, ◌&&◌, not, Bool, true, false, Bytes, List, [], ◌∷◌, ◌==◌, leb,
  if◌then◌else◌, Option, none, some, Run, ok, fault, out_of_fuel, ◌>>=◌, length, is_space, to_lower,
}
use gusher.Buffer.{load, store, index, text_at}
use gusher.CString.{codes}

-- What `read` gives on a connection: the bytes that the peer sends, and then 0, or -1.
pub record Stream : Type 0 where
  pub pending : Bytes
  pub broken : Bool

-- `GETLINE_OK` … `GETLINE_TOO_LONG`
pub data GetLine : Type 0 where
  getline_ok : GetLine
  peer_closed : GetLine
  read_err : GetLine
  too_long : GetLine

-- The end of a line at `buf[i]`. At 0 the code reads `buf[-1]`, which lies outside the buffer.
unfoldable pub end_line : Bytes → ℕ → Run Bytes
end_line mem zero = fault
end_line mem (suc i) = do c ← load mem i; if c == 13 then store mem i 0 else store mem (suc i) 0

-- The loop of `mygetline`, at `buf[i]`, on the bytes that are still to come.
unfoldable pub getline_loop : ℕ → Bool → Bytes → ℕ → Bytes → Run (GetLine × Bytes × Bytes)
unfolding end_line
getline_loop len broken mem i [] =
    if leb len i
    then (do mem ← store mem (len - 1) 0; ok (too_long, mem, []))
    else ok ((if broken then read_err else peer_closed), mem, [])
getline_loop len broken mem i (c ∷ pending) =
    if leb len i then (do mem ← store mem (len - 1) 0; ok (too_long, mem, c ∷ pending)) else (do
      mem ← store mem i c
      if c == 10
          then (do mem ← end_line mem i; ok (getline_ok, mem, pending))
          else getline_loop len broken mem (suc i) pending)

-- `mygetline(fd, buf, len)`
unfoldable pub mygetline : Stream → Bytes → ℕ → Run (GetLine × Bytes × Stream)
unfolding getline_loop
mygetline fd mem len = do
  (res, mem, pending) ← getline_loop len fd.broken mem 0 fd.pending
  ok (res, mem, record fd { pending = pending })

-- The value of a field: the string that Guile makes of these bytes, which for a posted part is what
-- `scm_from_stringn` gives as UTF-8, with question marks for what is none; or a file that holds the
-- bytes, with the name that it was sent with.
pub data Payload : Type 0 where
  decoded : Bytes → Payload
  saved : Bytes → Bytes → Payload

-- A field of a form: its key, nothing for `SCM_EOL`, and its value.
pub record Part : Type 0 where
  pub key : Option Bytes
  pub value : Payload

-- A value of the request's association list; `form` is the one of `query`.
pub data Value : Type 0 where
  symbol : Bytes → Value
  string : Bytes → Value
  integer : ℕ → Value
  form : List Part → Value

abbrev pub Request : Type 0
Request = List (Bytes × Value)

-- A pointer that the code uses without a test: NULL is a fault.
unfoldable pub not_null : Option ℕ → Run ℕ
not_null none = fault
not_null (some p) = ok p

-- `if ((pt = index(mark, '?')) != NULL) …`
unfoldable pub query_string : Bytes → Option ℕ → Run (Bytes × Bytes)
query_string mem none = ok (mem, [])
query_string mem (some p) = do mem ← store mem p 0; qstring ← text_at mem (p + 1); ok (mem, qstring)

unfoldable pub split_query : Bytes → ℕ → Run (Bytes × Bytes)
unfolding query_string
split_query mem mark = do pt ← index mem mark b'?'; query_string mem pt

-- `start_request(line)`, with the line at the buffer's start.
unfoldable pub start_request : Bytes → Run (Bytes × Request)
unfolding not_null split_query
start_request mem = do
  c ← load mem 0
  let method = if c == b'P' then codes "post" else codes "get"
  space ← (index mem 0 32 >>= not_null)
  let mark = space + 1
  stop ← (index mem mark 32 >>= not_null)
  mem ← store mem stop 0
  url ← text_at mem mark
  (mem, qstring) ← split_query mem mark
  path ← text_at mem mark
  ok (
    mem,
    (codes "query-string", string qstring)
        ∷ (codes "url-path", string path)
        ∷ (codes "url", string url)
        ∷ (codes "method", symbol method)
        ∷ [],
  )

-- The loop of `downcase`, from `pt` on.
unfoldable pub downcase_loop : ℕ → Bytes → ℕ → Run Bytes
unfolding to_lower
downcase_loop zero mem pt = out_of_fuel
downcase_loop (suc fuel) mem pt = do
  c ← load mem pt
  if c == 0 then ok mem else (do mem ← store mem pt (to_lower c); downcase_loop fuel mem (suc pt))

-- `downcase(buf)`, with the text at the buffer's start.
unfoldable pub downcase : Bytes → Run Bytes
unfolding downcase_loop
downcase mem = downcase_loop (length mem) mem 0

-- `while (*colon && isspace(*colon)) colon++;`
unfoldable pub skip_spaces : ℕ → Bytes → ℕ → Run ℕ
unfolding is_space
skip_spaces zero mem colon = out_of_fuel
skip_spaces (suc fuel) mem colon = do
  c ← load mem colon
  if not (c == 0) && is_space c then skip_spaces fuel mem (suc colon) else ok colon

-- A header line: nothing without a colon.
unfoldable pub header_line : Bytes → Option ℕ → Request → Run (Bytes × Request)
unfolding skip_spaces downcase
header_line mem none request = ok (mem, request)
header_line mem (some p) request = do
  mem ← store mem p 0
  colon ← skip_spaces (length mem) mem (p + 1)
  mem ← downcase mem
  key ← text_at mem 0
  value ← text_at mem colon
  ok (mem, (key, string value) ∷ request)

-- A line that is not empty: the first starts the request.
unfoldable pub add_line : Bytes → Request → Run (Bytes × Request)
unfolding start_request header_line
add_line mem [] = start_request mem
add_line mem (pair ∷ request) = do colon ← index mem 0 b':'; header_line mem colon (pair ∷ request)

-- The loop that builds the request; nothing where the peer is gone, when `process_request` returns.
-- Each round but the last reads a line, so the number of bytes and one is enough fuel.
unfoldable pub build_loop : ℕ → ℕ → Stream → Bytes → Request → Run (Option (Request × Stream))
unfolding mygetline add_line
build_loop zero avail sock mem request = out_of_fuel
build_loop (suc fuel) avail sock mem request = do
  (res, mem, sock) ← mygetline sock mem avail
  elim res [
    | peer_closed ↦ ok none
    | read_err ↦ ok none
    | too_long ↦ ok (some (request, sock))
    | getline_ok ↦ (do
      c ← load mem 0
      if c == 0
          then ok (some (request, sock))
          else (do (mem, request) ← add_line mem request; build_loop fuel avail sock mem request))
  ]

-- The first part of `process_request`, on the contents of its `buf`.
unfoldable pub build_request : Stream → Bytes → Run (Option (Request × Stream))
unfolding build_loop
build_request sock mem = build_loop (suc (length sock.pending)) (length mem) sock mem []

-- The client's address, put in front of the request.
unfoldable pub add_remote : Bytes → ℕ → Request → Request
add_remote ipaddr rport request =
    (codes "remote-port", integer rport) ∷ (codes "remote-host", string ipaddr) ∷ request
