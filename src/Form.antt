-- ===== src/Form.antt =====
-- The fields that come with a request, src/main.c: `get_in`, `request_length`, `form_urlencoded`,
-- and the searches `strcasestr` and `memscan`.
pub mod Body
pub mod Search
pub mod Lookup
use gusher.Base.{
  ℕ, zero, suc, ◌+◌, ◌-◌, ◌*◌, min, not, ◌&&◌, Bool, true, false, Bytes, List, [], ◌∷◌, ◌++◌, ◌==◌,
  ltb, leb, if◌then◌else◌, Option, none, some, Run, ok, fault, thrown, out_of_fuel, ◌>>=◌, ℤ, pos,
  negsuc, length, take, drop, is_digit, is_space, to_upper,
}
use gusher.Buffer.{store}
use gusher.CString.{codes, strcmp_zero}
use gusher.Query.{parse_query}
use gusher.Request.{Request, Value, symbol, string, integer, form}

-- `scm_assq_ref`: symbols are equal where their names are.
unfoldable pub assq_ref : Request → Bytes → Option Value
assq_ref [] key = none
assq_ref ((name, value) ∷ request) key =
    if strcmp_zero name key then some value else assq_ref request key

-- `scm_to_locale_string` raises an exception on what is no string.
unfoldable pub to_locale_string : Value → Run Bytes
to_locale_string (string s) = ok s
to_locale_string (symbol s) = thrown
to_locale_string (integer n) = thrown
to_locale_string (form query) = thrown

abbrev pub Fields : Type 0
Fields = List (Bytes × Bytes)

query_of : Option Value → Run (Option Fields)
query_of none = ok none
query_of (some value) = do
  text ← to_locale_string value
  fields ← parse_query (text ++ 0 ∷ []) 0
  ok (some fields)

-- `get_in(request)`; nothing for `#f`.
unfoldable pub get_in : Request → Run (Option Fields)
unfolding query_of
get_in request = query_of (assq_ref request (codes "query-string"))

-- The digits of `atoi`, with those before them.
unfoldable pub atoi_digits : ℕ → Bytes → ℕ
atoi_digits n [] = n
atoi_digits n (c ∷ s) = if is_digit c then atoi_digits (n * 10 + (c - b'0')) s else n

abbrev pub negated : ℕ → ℤ
negated zero = pos 0
negated (suc n) = negsuc n

unfoldable pub atoi_sign : Bytes → ℤ
atoi_sign [] = pos 0
atoi_sign (c ∷ s) =
    if c == b'-'
    then negated (atoi_digits 0 s)
    else if c == b'+'
    then pos (atoi_digits 0 s)
    else pos (atoi_digits 0 (c ∷ s))

-- The C library's `atoi`, where the number is an `int`.
unfoldable pub atoi : Bytes → ℤ
unfolding atoi_sign atoi_digits
atoi [] = pos 0
atoi (c ∷ s) = if is_space c then atoi s else atoi_sign (c ∷ s)

length_of : Option Value → Run ℤ
length_of none = ok (pos 0)
length_of (some value) = do len ← to_locale_string value; ok (atoi len)

unfoldable pub request_length : Request → Run ℤ
unfolding length_of
request_length request = length_of (assq_ref request (codes "content-length"))

abbrev pub post_mem_max : ℕ
post_mem_max = 1000000

-- How many bytes past the first have arrived when so many are still to come.
abbrev pub Arrival : Type 0
Arrival = ℕ → ℕ

-- The size that `read` gives for `room` bytes, where `coming` are to come.
abbrev pub read_size : Arrival → ℕ → ℕ → ℕ
read_size arrival room coming = min room (min (suc (arrival coming)) coming)

-- The loop of `form_urlencoded`, with `pt` and the length that is left. `read` gives 0 when the
-- peer has closed, and -1 on an error; neither ends the loop.
unfoldable pub read_loop : Arrival → Bool → ℕ → Bytes → ℕ → ℕ → Bytes → Run (Bytes × ℕ × Bytes)
read_loop arrival broken fuel mem pt zero pending = ok (mem, pt, pending)
read_loop arrival broken zero mem pt (suc left) pending = out_of_fuel
read_loop arrival broken (suc fuel) mem pt (suc left) [] = elim broken [
  | false ↦ read_loop arrival broken fuel mem pt (suc left) []
  | true ↦ elim pt [
    | zero ↦ fault
    | suc before ↦ read_loop arrival broken fuel mem before (suc (suc left)) []
  ]
]
read_loop arrival broken (suc fuel) mem pt (suc left) (c ∷ pending) =
    let n = read_size arrival (suc left) (length (c ∷ pending)) in
    read_loop arrival broken fuel (take pt mem ++ (take n (c ∷ pending) ++ drop (pt + n) mem))
      (pt + n) (suc left - n) (drop n (c ∷ pending))

-- What `malloc` gives, before the code writes it.
abbrev pub blank : ℕ → Bytes
blank zero = []
blank (suc n) = 0 ∷ blank n

-- `form_urlencoded` once the length is known. A length of -1 allocates nothing, where the final
-- NUL does not fit; any other negative length asks for more than `malloc` gives.
-- The copy to `/tmp/urlencode` is left out, so `fopen` is taken not to fail.
unfoldable pub form_of_length : Arrival → Bool → ℤ → Bytes → Run (Fields × Bytes)
unfolding read_loop
form_of_length arrival broken (negsuc zero) pending = fault
form_of_length arrival broken (negsuc (suc n)) pending = ok ([], pending)
form_of_length arrival broken (pos n) pending =
    let len = min n post_mem_max in
    do
      (mem, pt, pending) ← read_loop arrival broken len (blank (len + 1)) 0 len pending
      mem ← store mem pt 0
      query ← parse_query mem 0
      ok (query, pending)

-- `form_urlencoded(request, sock)`, with the bytes that the socket still gives.
unfoldable pub form_urlencoded : Arrival → Bool → Request → Bytes → Run (Fields × Bytes)
unfolding form_of_length
form_urlencoded arrival broken request pending = do
  len ← request_length request
  form_of_length arrival broken len pending

-- The loop of `strcasestr`, with `pt1`, its place, `pt2`, and `anchor`.
unfoldable pub strcasestr_loop : Bytes → Bytes → ℕ → Bytes → Option ℕ → Option ℕ
unfolding to_upper
strcasestr_loop needle s i [] anchor = anchor
strcasestr_loop needle [] i (b ∷ p) anchor = none
strcasestr_loop needle (a ∷ s) i (b ∷ p) none =
    if to_upper a == to_upper b
    then strcasestr_loop needle s (suc i) p (some i)
    else strcasestr_loop needle s (suc i) needle none
strcasestr_loop needle (a ∷ s) i (b ∷ p) (some k) =
    if to_upper a == to_upper b
    then strcasestr_loop needle s (suc i) p (some k)
    else strcasestr_loop needle s (suc i) needle none

-- `strcasestr(haystack, needle)`, as the place of what it finds.
unfoldable pub strcasestr : Bytes → Bytes → Option ℕ
unfolding strcasestr_loop
strcasestr haystack needle = strcasestr_loop needle haystack 0 needle (some 0)

-- `memcmp(pt, needle, nlen) == 0`; both must have `nlen` bytes.
unfoldable pub memcmp_zero : Bytes → ℕ → Bytes → Run Bool
memcmp_zero mem pt needle =
    if leb (pt + length needle) (length mem)
    then ok (strcmp_zero (take (length needle) (drop pt mem)) needle)
    else fault

-- `memscan(haystack, field, needle)`
unfoldable pub memscan : Bytes → ℕ → ℕ → Bytes → Run (Option ℕ)
memscan mem pt zero needle =
    if ltb 0 (length needle) then ok none else (do hit ← memcmp_zero mem pt needle; ok (some pt))
memscan mem pt (suc field) needle = if ltb (suc field) (length needle) then ok none else (do
  hit ← memcmp_zero mem pt needle
  if hit then ok (some pt) else memscan mem (suc pt) field needle)
