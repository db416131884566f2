-- ===== src/Tests/Serving.antt =====
-- The responder table and query strings, src/main.c.
use gusher.Base.{◌≡◌, refl, List, [], ◌∷◌, ◌++◌, inl, ℕ, ok, arith, is_xdigit}
use gusher.CString.{codes}
use gusher.Handlers.Insertion.{insertion_qsort}
use gusher.Handlers.Longest.{Finds, find_handler-set_handlers}
use gusher.Handlers.{HandlerEntry, empty_registry, find_handler, set_handlers}
use gusher.Query.Decode.{Encodes, done, space, percent}
use gusher.Query.Parse.{QueryText, field, word, last, more, parse_query-QueryText}
use gusher.Buffer.{load, store, index, text_at}
use gusher.Query.{parse_query, decode_hex, cut}

abbrev entries : List (HandlerEntry ℕ)
entries =
    record { path = codes "/a"; handler = 1 }
    ∷ record { path = codes "/a/bc"; handler = 2 }
    ∷ record { path = codes "/"; handler = 3 }
    ∷ []

find_handler-set_handlers_example :
    Finds entries
      (codes "/a/bcd")
      (find_handler (set_handlers insertion_qsort entries empty_registry).handlers (codes "/a/bcd"))
find_handler-set_handlers_example =
    find_handler-set_handlers insertion_qsort entries (codes "/a/bcd")

-- A space, and "%41": " A".
abbrev encoded : Encodes (codes " A") (codes "+%41")
encoded =
    space refl refl (percent 4 1 refl refl (inl (omega arith, refl)) (inl (omega arith, refl)) done)

abbrev query : QueryText (codes "flag&x=+%41") ((codes "x", codes " A") ∷ [])
query =
    more {s = codes "flag"} {t = codes "x=+%41"} refl refl (word refl (omega arith)) (omega arith) (
      last
        (field (codes "x") (codes " A") (codes "+%41") refl refl (omega arith) (omega arith)
          encoded)
        (omega arith))

parse_query-QueryText_example :
    parse_query (codes "flag&x=+%41" ++ 0 ∷ []) 0 ≡ ok ((codes "x", codes " A") ∷ [])
parse_query-QueryText_example = parse_query-QueryText [] [] query

parse_query_run :
    parse_query (codes "a=1&b=%2b%2B+&c" ++ 0 ∷ []) 0
    ≡ ok ((codes "b", codes "++ ") ∷ (codes "a", codes "1") ∷ [])
unfolding parse_query load store index text_at decode_hex is_xdigit cut
parse_query_run = refl
