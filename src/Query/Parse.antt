-- ===== src/Query/Parse.antt =====
-- `parse_query` of src/main.c reads a query string back into its fields.
use gusher.Base.{
  ℕ, zero, suc, ◌+◌, ◌<◌, ◌≡◌, refl, sym, ap, ◌∙◌, Bytes, List, [], ◌∷◌, ◌++◌, append_assoc,
  append-nil, reverse, reverse-append, some, Run, ok, length, length-append, arith,
}
use gusher.Buffer.Border.{store_at, Avoids, IsText, index-hit, index-miss, text_at_lem}
use gusher.Buffer.{store, text_at}
use gusher.Query.Decode.{Encodes, decode_query-Encodes}
use gusher.Query.{decode_query, cut, add_pair, take_pair, parse_loop, parse_query}

abbrev Fields : Type 0
Fields = List (Bytes × Bytes)

-- A stretch between two `&`: a field with its encoded value, or a word with no `=`, which stands
-- for no field.
pub data Segment : Bytes → Fields → Type 0 where
  field :
      {s : Bytes} {fs : Fields} (k v e : Bytes)
      → s ≡ k ++ b'=' ∷ e
      → fs ≡ (k, v) ∷ []
      → Avoids b'=' k
      → IsText v
      → Encodes v e
      → Segment s fs
  word : {s : Bytes} {fs : Fields} → fs ≡ [] → Avoids b'=' s → Segment s fs

-- A query string and the fields that it stands for, in order.
pub data QueryText : Bytes → Fields → Type 0 where
  last : {s : Bytes} {fs : Fields} → Segment s fs → Avoids b'&' s → QueryText s fs
  more :
      {q s t : Bytes} {fs gs hs : Fields}
      → q ≡ s ++ b'&' ∷ t
      → hs ≡ fs ++ gs
      → Segment s fs
      → Avoids b'&' s
      → QueryText t gs
      → QueryText q hs

Avoids-IsText : (c : ℕ) (s : Bytes) → Avoids c s → IsText s
Avoids-IsText c [] h = tt
Avoids-IsText c (x ∷ s) h = (h.0.0, Avoids-IsText c s h.1)

-- What a round does once its stretch ends in a NUL: the buffer's front, of the stretch's length,
-- and the list with the stretch's field in front.
record Taken (pre s tail : Bytes) (new : Fields) (out : Run (Bytes × Fields)) : Type 0 where
  front : Bytes
  result : out ≡ ok (front ++ tail, new)
  size : length front ≡ length pre + length s + 1

add_pair-field :
    (pre k v e tail mem : Bytes) (mark eq : ℕ) (list : Fields)
    → mem ≡ pre ++ (k ++ b'=' ∷ (e ++ 0 ∷ tail))
    → mark ≡ length pre
    → eq ≡ length pre + length k
    → Avoids b'=' k
    → IsText v
    → Encodes v e
    → Taken pre (k ++ b'=' ∷ e) tail ((k, v) ∷ list) (add_pair mem mark (some eq) list)
unfolding add_pair
add_pair-field pre k v e tail mem mark eq list m p q a t enc =
    let pre' = pre ++ (k ++ 0 ∷ []) in
    let sizes = length-append pre (k ++ 0 ∷ []) in
    let sizes' = length-append k (0 ∷ []) in
    let mem1 = pre ++ (k ++ 0 ∷ (e ++ 0 ∷ tail)) in
    let cut : store mem eq 0 ≡ ok mem1 =
      store_at mem (pre ++ k) b'=' (e ++ 0 ∷ tail) eq 0 (m ∙ sym (append_assoc pre k _))
        (omega (arith, length-append pre k))
      ∙ ap ok (append_assoc pre k _) in
    let key : text_at mem1 mark ≡ ok k =
      text_at_lem mem1 pre mark k (e ++ 0 ∷ tail) refl p (Avoids-IsText b'=' k a) in
    let d = decode_query-Encodes pre' tail enc in
    let at_eq : eq + 1 ≡ length pre' = omega (arith, sizes, sizes') in
    let regroup : mem1 ≡ pre' ++ (e ++ 0 ∷ tail) = simp append_assoc in
    let mem2 = pre' ++ (v ++ 0 ∷ (d.junk ++ tail)) in
    let decoded : decode_query mem1 (eq + 1) ≡ ok mem2 = rw (at_eq, regroup) d.result in
    let value : text_at mem2 (eq + 1) ≡ ok v =
      text_at_lem mem2 pre' (eq + 1) v (d.junk ++ tail) refl at_eq t in
    record {
      front = pre' ++ (v ++ 0 ∷ d.junk);
      result = rw cut (rw key (rw decoded (rw value (simp append_assoc))));
      size = omega (
        arith,
        sizes,
        sizes',
        d.size,
        length-append pre' (v ++ 0 ∷ d.junk),
        length-append v (0 ∷ d.junk),
        length-append k (b'=' ∷ e),
      );
    }

module _ (pre s tail mem : Bytes) (mark : ℕ) (list : Fields) where
  Segment-Taken :
      {fs : Fields}
      → mem ≡ pre ++ (s ++ 0 ∷ tail)
      → mark ≡ length pre
      → Segment s fs
      → Taken pre s tail (reverse fs ++ list) (take_pair mem mark list)
  unfolding take_pair add_pair
  Segment-Taken m p (field k v e i j a t enc) =
      let m' : mem ≡ pre ++ (k ++ b'=' ∷ (e ++ 0 ∷ tail)) = m ∙ rw (i, append_assoc) in
      rw (index-hit mem pre mark b'=' k (e ++ 0 ∷ tail) m' p a, j, i)
        (add_pair-field pre k v e tail mem mark (mark + length k) list m' p (omega arith) a t enc)
  Segment-Taken m p (word j a) = record {
    front = pre ++ (s ++ 0 ∷ []);
    result =
        rw (index-miss mem pre mark b'=' s tail m p (omega arith) a)
          (rw (j, m) (simp append_assoc));
    size = omega (arith, length-append pre (s ++ 0 ∷ []), length-append s (0 ∷ []));
  }

parse_loop-QueryText :
    (fuel : ℕ) {t : Bytes} {fs : Fields} (pre rest mem : Bytes) (mark : ℕ) (list : Fields)
    → QueryText t fs
    → mem ≡ pre ++ (t ++ 0 ∷ rest)
    → mark ≡ length pre
    → length t < fuel
    → parse_loop fuel mem mark list ≡ ok (reverse fs ++ list)
unfolding parse_loop cut
parse_loop-QueryText zero pre rest mem mark list q m p f = absurd (omega arith)
parse_loop-QueryText (suc fuel) {t} {fs} pre rest mem mark list (last seg a) m p f =
    rw (index-miss mem pre mark b'&' t rest m p (omega arith) a)
      (rw (Segment-Taken pre t rest mem mark list m p seg).result)
parse_loop-QueryText (suc fuel) pre rest mem mark list (more {s} {t} {fs} {gs} i j seg a q) m p f =
    let tail = t ++ 0 ∷ rest in
    let m' : mem ≡ pre ++ (s ++ b'&' ∷ tail) = m ∙ rw (i, append_assoc) in
    let mem1 = pre ++ (s ++ 0 ∷ tail) in
    let cut : store mem (mark + length s) 0 ≡ ok mem1 =
      store_at mem (pre ++ s) b'&' tail (mark + length s) 0 (m' ∙ sym (append_assoc pre s _))
        (omega (arith, length-append pre s))
      ∙ ap ok (append_assoc pre s _) in
    let taken = Segment-Taken pre s tail mem1 mark list refl p seg in
    let size : length t < fuel = omega (arith, ap length i, length-append s (b'&' ∷ t)) in
    rw (index-hit mem pre mark b'&' s tail m' p a) (
      rw cut (
        rw taken.result (
          parse_loop-QueryText fuel taken.front rest (taken.front ++ tail) (mark + length s + 1)
            (reverse fs ++ list) q refl (omega (arith, taken.size)) size
          ∙ ap ok (rw (j, reverse-append) (simp append_assoc)))))

-- parse_query on a buffer that holds a query string from its pointer on and its NUL returns the
-- string's fields, the last first, with their values decoded; words with no `=` are passed over.
pub parse_query-QueryText :
    {t : Bytes} {fs : Fields} (pre rest : Bytes)
    → QueryText t fs
    → parse_query (pre ++ (t ++ 0 ∷ rest)) (length pre) ≡ ok (reverse fs)
unfolding parse_query
parse_query-QueryText {t} {fs} pre rest q =
    let mem = pre ++ (t ++ 0 ∷ rest) in
    let size = length-append pre (t ++ 0 ∷ rest) in
    parse_loop-QueryText (length mem) pre rest mem (length pre) [] q refl refl
      (omega (arith, size, length-append t (0 ∷ rest)))
    ∙ ap ok (append-nil (reverse fs))
