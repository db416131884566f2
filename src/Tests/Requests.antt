-- ===== src/Tests/Requests.antt =====
-- A request on a connection, src/main.c.
use gusher.Base.{
  ◌≡◌, refl, false, true, Bytes, [], ◌∷◌, ◌++◌, some, ok, fault, arith, is_space, to_lower,
  is_lower, is_upper,
}
use gusher.Buffer.{load, store, index, text_at}
use gusher.CString.{codes, strcmp_zero}
use gusher.Request.{
  Stream, Request, getline_ok, too_long, mygetline, build_request, string, symbol, getline_loop,
  end_line, start_request, not_null,
}
use gusher.Request.Line.{mygetline-line, mygetline-long}
use gusher.Request.Header.{Header, IsHeader}
use gusher.Request.Start.{Target, IsTarget}
use gusher.Form.{assq_ref}
use gusher.Form.Lookup.{assq_ref-build_request}
use gusher.Request.Whole.{build_request-whole}

abbrev crlf : Bytes
crlf = 13 ∷ 10 ∷ []

abbrev target : Target
target = record { path = codes "/a"; query = some (codes "b=c") }

target-IsTarget : IsTarget target
target-IsTarget = record { url_text = omega arith; path_text = omega arith }

abbrev host : Header
host = record { name = codes "Host"; spaces = 32 ∷ []; value = codes "x:1" }

host-IsHeader : IsHeader host
unfolding is_space
host-IsHeader = record {
  name_text = omega arith;
  all_spaces = ((omega arith, refl), tt);
  value_text = omega arith;
  value_start = refl;
}

abbrev connection : Stream
connection = record {
  pending = codes "GET /a?b=c H" ++ 13 ∷ 10 ∷ (codes "Host: x:1" ++ 13 ∷ 10 ∷ 13 ∷ 10 ∷ codes "z");
  broken = false;
}

-- A line buffer of 16 bytes.
abbrev buffer : Bytes
buffer = codes "????????????????"

build_request-whole_example :
    build_request connection buffer
    ≡ ok (
        some (
          (codes "host", string (codes "x:1"))
              ∷ (codes "query-string", string (codes "b=c"))
              ∷ (codes "url-path", string (codes "/a"))
              ∷ (codes "url", string (codes "/a?b=c"))
              ∷ (codes "method", symbol (codes "get"))
              ∷ [],
          record connection { pending = codes "z" },
        ))
unfolding to_lower is_lower
build_request-whole_example =
    build_request-whole connection buffer b'G' (codes "ET") target (codes "H") (host ∷ [])
      (codes "z") refl (omega arith) target-IsTarget (omega arith)
      (((host-IsHeader, omega arith), tt))

mygetline-line_example :
    mygetline
      (record { pending = codes "ab" ++ 13 ∷ 10 ∷ codes "z"; broken = true })
      (codes "??????")
      6
    ≡ ok (
      getline_ok,
      codes "ab" ++ 0 ∷ 10 ∷ codes "??",
      record { pending = codes "z"; broken = true },
    )
mygetline-line_example =
    mygetline-line (record { pending = codes "ab" ++ 13 ∷ 10 ∷ codes "z"; broken = true })
      (codes "ab") (codes "z") (codes "??????") 6 refl (omega arith) refl (omega arith)

mygetline-long_example :
    mygetline (record { pending = codes "abcd"; broken = true }) (codes "???") 3
    ≡ ok (too_long, codes "ab" ++ 0 ∷ [], record { pending = codes "d"; broken = true })
mygetline-long_example =
    mygetline-long (record { pending = codes "abcd"; broken = true }) (codes "ab") b'c' (codes "d")
      (codes "???") 3 refl (omega arith) refl refl

-- A line that is only a newline: the byte before the buffer is read.
newline_run : mygetline (record { pending = 10 ∷ []; broken = false }) (codes "???") 3 ≡ fault
unfolding mygetline getline_loop end_line store
newline_run = refl

-- A first line with no second space.
no_version_run : start_request (codes "GET /" ++ 0 ∷ []) ≡ fault
unfolding start_request not_null load index store text_at
no_version_run = refl

abbrev shadow : Header
shadow = record { name = codes "Url-Path"; spaces = []; value = codes "/b" }

shadow-IsHeader : IsHeader shadow
unfolding is_space
shadow-IsHeader = record {
  name_text = omega arith;
  all_spaces = tt;
  value_text = omega arith;
  value_start = refl;
}

abbrev misleading : Stream
misleading = record {
  pending = codes "GET /a?b=c H" ++ 13 ∷ 10 ∷ (codes "Url-Path:/b" ++ 13 ∷ 10 ∷ 13 ∷ 10 ∷ []);
  broken = false;
}

-- A header takes the place of the path that was asked for.
assq_ref-build_request_example :
    (request : Request) × (build_request misleading buffer
      ≡ ok (some (request, record misleading { pending = [] })))
    × (assq_ref request (codes "url-path") ≡ some (string (codes "/b")))
unfolding to_lower is_upper strcmp_zero
assq_ref-build_request_example =
    assq_ref-build_request (codes "url-path") misleading buffer b'G' (codes "ET") target (codes "H")
      (shadow ∷ []) [] refl (omega arith) target-IsTarget (omega arith)
      ((shadow-IsHeader, omega arith), tt)
