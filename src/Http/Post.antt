-- ===== src/Http/Post.antt =====
-- `post_data` of src/http.c fills its buffer to the last byte.
use gusher.Base.{
  ℕ, ◌+◌, ◌≤◌, ◌≡◌, refl, sym, ap, ◌∙◌, Bool, true, false, Bytes, List, [], ◌∷◌, ◌++◌, append_assoc,
  append-nil, ok, ◌>>=◌, length, length-append, if◌then◌else◌, arith,
}
use gusher.Buffer.{store}
use gusher.Buffer.Border.{store_at}
use gusher.Form.{blank}
use gusher.Form.Body.{length-blank}
use gusher.Http.Copy.{duple_text, write_duple_at}
use gusher.Http.{Qduple, read_post, separator, write_duples, post_data}

abbrev sep : Bool → Bytes
sep first = if first then [] else b'&' ∷ []

-- The pairs with `=` between key and value, and `&` between pairs.
abbrev pub joined : Bool → List Qduple → Bytes
joined first [] = []
joined first (d ∷ ds) = (if first then [] else b'&' ∷ []) ++ (duple_text d ++ joined false ds)

separator_at :
    (first : Bool) (mem pre rest : Bytes) (cpt : ℕ)
    → mem ≡ pre ++ rest
    → cpt ≡ length pre
    → length (sep first) ≤ length rest
    → (tail : Bytes) × (separator first mem cpt
        ≡ ok ((pre ++ sep first) ++ tail, cpt + length (sep first)))
      × (length (sep first) + length tail ≡ length rest)
unfolding separator
separator_at true mem pre rest cpt m e room =
    (rest, rw (m, append-nil pre) (ap (λ k. ok (pre ++ rest, k)) (omega arith)), omega arith)
separator_at false mem pre (o ∷ rest) cpt m e room = (
  rest,
  rw (store_at mem pre o rest cpt b'&' m e)
      (ap (λ b. ok (b, cpt + 1)) (sym (append_assoc pre (b'&' ∷ []) rest))),
  omega arith,
)
separator_at false mem pre [] cpt m e room = absurd (omega arith)

write_duples_at :
    (ds : List Qduple) (first : Bool) (mem pre rest : Bytes) (cpt : ℕ)
    → mem ≡ pre ++ rest
    → cpt ≡ length pre
    → length (joined first ds) + 1 ≡ length rest
    → (x : ℕ) × (end : ℕ) × (write_duples first ds mem cpt
        ≡ ok ((pre ++ joined first ds) ++ x ∷ [], end))
      × (end ≡ length (pre ++ joined first ds))
unfolding write_duples
write_duples_at [] first mem pre (x ∷ []) cpt m e l =
    (x, cpt, rw (m, append-nil pre) refl, rw (append-nil pre) e)
write_duples_at [] first mem pre [] cpt m e l = absurd (omega arith)
write_duples_at [] first mem pre (x ∷ y ∷ rest) cpt m e l = absurd (omega arith)
write_duples_at (d ∷ ds) first mem pre rest cpt m e l =
    let text = duple_text d in
    let more = joined false ds in
    let size : length (joined first (d ∷ ds)) ≡ length (sep first) + (length text + length more) =
      omega (arith, length-append (sep first) (text ++ more), length-append text more) in
    let (tail1, e1, l1) = separator_at first mem pre rest cpt m e (omega (arith, l, size)) in
    let pre1 = pre ++ sep first in
    let at1 : cpt + length (sep first) ≡ length pre1 =
      omega (arith, e, length-append pre (sep first)) in
    let (tail2, e2, l2) =
      write_duple_at d (pre1 ++ tail1) pre1 tail1 (cpt + length (sep first)) refl at1
        (omega (arith, l, size, l1)) in
    let pre2 = pre1 ++ text in
    let cpt2 = cpt + length (sep first) + length d.key + 1 + length d.value in
    let at2 : cpt2 ≡ length pre2 =
      omega (arith, at1, length-append pre1 text, length-append d.key (b'=' ∷ d.value)) in
    let (x, end, e3, l3) =
      write_duples_at ds false (pre2 ++ 0 ∷ tail2) pre2 (0 ∷ tail2) cpt2 refl at2
        (omega (arith, l, size, l1, l2)) in
    let whole : pre2 ++ more ≡ pre ++ joined first (d ∷ ds) =
      append_assoc pre1 text more ∙ append_assoc pre (sep first) (text ++ more) in
    (x, end, rw (e1, e2) (e3 ∙ ap (λ b. ok (b ++ x ∷ [], end)) whole), l3 ∙ ap length whole)

size_of : List Qduple → ℕ
size_of [] = 0
size_of (d ∷ ds) = length d.key + length d.value + 1 + size_of ds

joined-size : (ds : List Qduple) → length (joined false ds) ≡ size_of ds + length ds
unfolding size_of
joined-size [] = refl
joined-size (d ∷ ds) = omega (
  arith,
  joined-size ds,
  length-append (duple_text d) (joined false ds),
  length-append d.key (b'=' ∷ d.value),
)

abbrev pub duple_of : (Bytes → Bytes) → Bytes × Bytes → Qduple
duple_of escape (key, value) = record { key = key; value = escape value }

-- The pairs linked in front of `ds`.
abbrev pub linked : (Bytes → Bytes) → List (Bytes × Bytes) → List Qduple → List Qduple
linked escape [] ds = ds
linked escape (pair ∷ node) ds = linked escape node (duple_of escape pair ∷ ds)

read_post_lem :
    (escape : Bytes → Bytes) (node : List (Bytes × Bytes)) (ds : List Qduple) (len : ℕ)
    → len ≡ size_of ds
    → (size : ℕ) × (read_post escape node ds len ≡ (linked escape node ds, size))
      × (size ≡ size_of (linked escape node ds))
unfolding read_post size_of
read_post_lem escape [] ds len e = (len, refl, e)
read_post_lem escape ((key, value) ∷ node) ds len e =
    read_post_lem escape node (duple_of escape (key, value) ∷ ds) _ (omega (arith, e))

linked_some :
    (escape : Bytes → Bytes) (node : List (Bytes × Bytes)) (d : Qduple) (ds : List Qduple)
    → (d' : Qduple) × (rest : List Qduple) × (linked escape node (d ∷ ds) ≡ d' ∷ rest)
linked_some escape [] d ds = (d, ds, refl)
linked_some escape (pair ∷ node) d ds = linked_some escape node (duple_of escape pair) (d ∷ ds)

fills :
    (ds : List Qduple) (d : Qduple) (rest : List Qduple) (size : ℕ)
    → ds ≡ d ∷ rest
    → size ≡ size_of ds
    → (do (mem, cpt) ← write_duples true ds (blank (size + length ds)) 0; store mem cpt 0)
      ≡ ok (joined true ds ++ 0 ∷ [])
unfolding size_of
fills ds d rest size e s =
    let l : length (joined true ds) + 1 ≡ length (blank (size + length ds)) =
      rw (length-blank (size + length ds), s, e)
        (omega (
          arith,
          joined-size rest,
          length-append (duple_text d) (joined false rest),
          length-append d.key (b'=' ∷ d.value),
        )) in
    let (x, end, run, at) =
      write_duples_at ds true (blank (size + length ds)) [] (blank (size + length ds)) 0 refl refl
        l in
    rw run (store_at (joined true ds ++ x ∷ []) (joined true ds) x [] end 0 refl at)

-- With at least one pair to post, every write of post_data falls inside the buffer that it
-- allocates, and fills it: it holds the pairs, the last first, with `=` between key and escaped
-- value and `&` between pairs, and a NUL in its last byte.
pub post_data-joined :
    (escape : Bytes → Bytes) (pair : Bytes × Bytes) (post : List (Bytes × Bytes))
    → post_data escape (pair ∷ post) ≡ ok (joined true (linked escape (pair ∷ post) []) ++ 0 ∷ [])
unfolding post_data size_of
post_data-joined escape pair post =
    let (size, run, s) = read_post_lem escape (pair ∷ post) [] 0 refl in
    let (d, rest, e) = linked_some escape post (duple_of escape pair) [] in
    rw run (fills (linked escape (pair ∷ post) []) d rest size e s)
