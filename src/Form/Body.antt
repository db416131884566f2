-- ===== src/Form/Body.antt =====
-- `get_in` and `form_urlencoded` of src/main.c on query strings, wherever the network cuts them.
use gusher.Base.{
  ℕ, zero, suc, ◌+◌, ◌-◌, ◌≤◌, ◌≡◌, refl, sym, ap, ◌∙◌, Bool, Bytes, List, [], ◌∷◌, ◌++◌, reverse,
  append_assoc, min, some, ok, pos, length, take, drop, length-append, length-take, length-drop,
  take-append, drop-append, arith,
}
use gusher.Buffer.{store}
use gusher.Buffer.Border.{store_at}
use gusher.CString.{codes}
use gusher.Query.Parse.{QueryText, parse_query-QueryText}
use gusher.Request.{Request, string}
use gusher.Form.{
  assq_ref, to_locale_string, query_of, get_in, atoi, length_of, request_length, post_mem_max,
  Arrival, read_size, read_loop, blank, form_of_length, form_urlencoded,
}

take_split : (n m l : ℕ) (xs : Bytes) → l ≡ n + m → take n xs ++ take m (drop n xs) ≡ take l xs
take_split zero m l xs e = ap (λ k. take k xs) (omega arith)
take_split (suc n) m (suc l) (x ∷ xs) e = ap (◌∷◌ x) (take_split n m l xs (omega arith))
take_split (suc n) zero (suc l) [] e = refl
take_split (suc n) (suc m) (suc l) [] e = refl
take_split (suc n) m zero xs e = absurd (omega arith)

drop_twice : (n m l : ℕ) (xs : Bytes) → l ≡ n + m → drop m (drop n xs) ≡ drop l xs
drop_twice zero m l xs e = ap (λ k. drop k xs) (omega arith)
drop_twice (suc n) m (suc l) (x ∷ xs) e = drop_twice n m l xs (omega arith)
drop_twice (suc n) zero (suc l) [] e = refl
drop_twice (suc n) (suc m) (suc l) [] e = refl
drop_twice (suc n) m zero xs e = absurd (omega arith)

drop_inside : (n : ℕ) (xs ys : Bytes) → n ≤ length xs → drop n (xs ++ ys) ≡ drop n xs ++ ys
drop_inside zero xs ys h = refl
drop_inside (suc n) (x ∷ xs) ys h = drop_inside n xs ys (omega arith)
drop_inside (suc n) [] ys h = absurd (omega arith)

read_loop_step :
    (arrival : Arrival) (broken : Bool) (fuel : ℕ) (mem : Bytes) (pt left c : ℕ) (rest : Bytes)
    → (n : ℕ) → n ≡ read_size arrival (suc left) (length (c ∷ rest))
    → (mem' : Bytes) → take pt mem ++ (take n (c ∷ rest) ++ drop (pt + n) mem) ≡ mem'
    → read_loop arrival broken (suc fuel) mem pt (suc left) (c ∷ rest)
      ≡ read_loop arrival broken fuel mem' (pt + n) (suc left - n) (drop n (c ∷ rest))
unfolding read_loop
read_loop_step arrival broken fuel mem pt left c rest n q mem' e = rw (sym e, q) refl

-- The loop puts the next bytes in the place of `old`, in reads of any sizes.
read_loop-reads :
    (arrival : Arrival) (broken : Bool) (fuel : ℕ) (mem pre old tail : Bytes) (pt left : ℕ)
    → (pending : Bytes) → mem ≡ pre ++ (old ++ tail)
    → pt ≡ length pre
    → left ≡ length old
    → left ≤ fuel
    → left ≤ length pending
    → read_loop arrival broken fuel mem pt left pending
      ≡ ok (pre ++ (take left pending ++ tail), pt + left, drop left pending)
unfolding read_loop
read_loop-reads arrival broken fuel mem pre [] tail pt zero pending m e l f enough =
    rw m (ap (λ k. ok (pre ++ tail, k, pending)) (omega arith))
read_loop-reads arrival broken (suc fuel) mem pre old tail pt (suc left) (c ∷ rest) m e l f enough =
    let p = c ∷ rest in
    let n = read_size arrival (suc left) (length p) in
    let got = take n p in
    let size : length got ≡ n = omega (arith, length-take n p) in
    let again = suc left - n in
    let front : take pt mem ≡ pre = rw (m, e) (take-append pre (old ++ tail)) in
    let back : drop (pt + n) mem ≡ drop n old ++ tail =
      sym (drop_twice pt n (pt + n) mem refl)
      ∙ rw (m, e, drop-append pre (old ++ tail)) (drop_inside n old tail (omega arith)) in
    let next =
      read_loop-reads arrival broken fuel (pre ++ (got ++ (drop n old ++ tail))) (pre ++ got)
        (drop n old) tail (pt + n) again (drop n p)
        (sym (append_assoc pre got (drop n old ++ tail)))
        (omega (arith, length-append pre got, size, e)) (omega (arith, length-drop n old))
        (omega arith) (omega (arith, length-drop n p)) in
    let whole : (pre ++ got) ++ (take again (drop n p) ++ tail)
        ≡ pre ++ (take (suc left) p ++ tail) =
      append_assoc pre got (take again (drop n p) ++ tail)
      ∙ ap (◌++◌ pre) (
          sym (append_assoc got (take again (drop n p)) tail)
          ∙ ap (λ t. t ++ tail) (take_split n again (suc left) p (omega arith))) in
    read_loop_step arrival broken fuel mem pt left c rest n refl
      (pre ++ (got ++ (drop n old ++ tail))) (rw (front, back) refl)
    ∙ (next
        ∙ rw (whole, drop_twice n again (suc left) p (omega arith))
            (ap (λ k. ok (pre ++ (take (suc left) p ++ tail), k, drop (suc left) p)) (omega arith)))
read_loop-reads arrival broken fuel mem pre (o ∷ old) tail pt zero pending m e l f enough =
    absurd (omega arith)
read_loop-reads arrival broken zero mem pre old tail pt (suc left) p m e l f enough =
    absurd (omega arith)
read_loop-reads arrival broken (suc fuel) mem pre old tail pt (suc left) [] m e l f enough =
    absurd (omega arith)

blank_split : (n k : ℕ) → k ≡ n + 1 → blank k ≡ blank n ++ 0 ∷ []
blank_split zero (suc zero) e = refl
blank_split (suc n) (suc k) e = ap (◌∷◌ 0) (blank_split n k (omega arith))
blank_split zero zero e = absurd (omega arith)
blank_split zero (suc (suc k)) e = absurd (omega arith)
blank_split (suc n) zero e = absurd (omega arith)

pub length-blank : (n : ℕ) → length (blank n) ≡ n
length-blank zero = refl
length-blank (suc n) = ap suc (length-blank n)

-- On a request whose content-length is the length of the query string that the connection sends
-- next, at most POST_MEM_MAX, form_urlencoded ends, whatever the sizes in which the network
-- delivers the bytes: it returns the query string's fields, the last first, and leaves what
-- follows to be read.
pub form_urlencoded-QueryText :
    (arrival : Arrival) (broken : Bool) (request : Request) (len body rest : Bytes)
    → {fs : List (Bytes × Bytes)} → assq_ref request (codes "content-length") ≡ some (string len)
    → atoi len ≡ pos (length body)
    → length body ≤ post_mem_max
    → QueryText body fs
    → form_urlencoded arrival broken request (body ++ rest) ≡ ok (reverse fs, rest)
unfolding form_urlencoded form_of_length request_length length_of to_locale_string
form_urlencoded-QueryText arrival broken request len body rest {fs} header number fits q =
    let n = length body in
    let mem = blank n ++ 0 ∷ [] in
    let cut : min n post_mem_max ≡ n = omega arith in
    let reads =
      read_loop-reads arrival broken n mem [] (blank n) (0 ∷ []) 0 n (body ++ rest) refl refl
        (sym (length-blank n)) (omega arith) (omega (arith, length-append body rest)) in
    let end : store (body ++ 0 ∷ []) (0 + n) 0 ≡ ok (body ++ 0 ∷ []) =
      store_at (body ++ 0 ∷ []) body 0 [] (0 + n) 0 refl (omega arith) in
    rw
      (
        header,
        number,
        cut,
        blank_split n (n + 1) refl,
        reads,
        take-append body rest,
        drop-append body rest,
        end,
        parse_query-QueryText [] [] q,
      )
      refl

-- On a request whose query-string is a query string, get_in succeeds with its fields, the last
-- first.
pub get_in-QueryText :
    (request : Request) (text : Bytes)
    → {fs : List (Bytes × Bytes)} → assq_ref request (codes "query-string") ≡ some (string text)
    → QueryText text fs
    → get_in request ≡ ok (some (reverse fs))
unfolding get_in query_of to_locale_string
get_in-QueryText request text {fs} header q = rw (header, parse_query-QueryText [] [] q) refl
