-- ===== src/Http/Copy.antt =====
-- `strcpy`, and one pair of the second loop of `post_data`, src/http.c, on a buffer with room for it.
use gusher.Base.{
  ℕ, zero, suc, ◌+◌, ◌≤◌, ◌≡◌, refl, sym, ap, ◌∙◌, Bytes, [], ◌∷◌, ◌++◌, append_assoc, ok, length,
  length-append, arith,
}
use gusher.Buffer.Border.{store_at}
use gusher.Http.{Qduple, strcpy, write_duple}

-- Room for `n` bytes and one more.
split_room :
    (n : ℕ) (rest : Bytes)
    → n + 1 ≤ length rest
    → (old : Bytes) × (x : ℕ) × (tail : Bytes) × (length old ≡ n) × (rest ≡ old ++ x ∷ tail)
split_room zero (x ∷ tail) h = ([], x, tail, refl, refl)
split_room (suc n) (o ∷ rest) h =
    let (old, x, tail, l, e) = split_room n rest (omega arith) in
    (o ∷ old, x, tail, ap suc l, ap (◌∷◌ o) e)
split_room n [] h = absurd (omega arith)

strcpy_at :
    (s old : Bytes) (mem pre : Bytes) (x : ℕ) (tail : Bytes) (p : ℕ)
    → mem ≡ pre ++ (old ++ x ∷ tail)
    → p ≡ length pre
    → length old ≡ length s
    → strcpy mem p s ≡ ok (pre ++ (s ++ 0 ∷ tail))
unfolding strcpy
strcpy_at [] [] mem pre x tail p m e l = store_at mem pre x tail p 0 m e
strcpy_at (c ∷ s) (o ∷ old) mem pre x tail p m e l =
    let rest = old ++ x ∷ tail in
    rw (store_at mem pre o rest p c m e) (
      strcpy_at s old (pre ++ c ∷ rest) (pre ++ c ∷ []) x tail (suc p)
        (sym (append_assoc pre (c ∷ []) rest)) (omega (arith, e, length-append pre (c ∷ [])))
        (omega arith)
      ∙ ap ok (append_assoc pre (c ∷ []) (s ++ 0 ∷ tail)))
strcpy_at [] (o ∷ old) mem pre x tail p m e l = absurd (omega arith)
strcpy_at (c ∷ s) [] mem pre x tail p m e l = absurd (omega arith)

abbrev pub duple_text : Qduple → Bytes
duple_text d = d.key ++ b'=' ∷ d.value

-- A duple, where the buffer has room for it and one more byte.
pub write_duple_at :
    (d : Qduple) (mem pre rest : Bytes) (cpt : ℕ)
    → mem ≡ pre ++ rest
    → cpt ≡ length pre
    → length (duple_text d) + 1 ≤ length rest
    → (tail : Bytes) × (write_duple d mem cpt
        ≡ ok ((pre ++ duple_text d) ++ 0 ∷ tail, cpt + length d.key + 1 + length d.value))
      × (length (duple_text d) + 1 + length tail ≡ length rest)
unfolding write_duple
write_duple_at d mem pre rest cpt m e room =
    let size = length-append d.key (b'=' ∷ d.value) in
    let (old, x, tail, l, split) = split_room (length d.key) rest (omega (arith, room, size)) in
    let total : length rest ≡ length d.key + suc (length tail) =
      ap length split ∙ omega (arith, length-append old (x ∷ tail), l) in
    let (old2, y, tail2, l2, split2) =
      split_room (length d.value) tail (omega (arith, room, size, total)) in
    let total2 : length tail ≡ length d.value + suc (length tail2) =
      ap length split2 ∙ omega (arith, length-append old2 (y ∷ tail2), l2) in
    let front = pre ++ d.key in
    let eq_front = front ++ b'=' ∷ [] in
    let at : cpt + length d.key ≡ length front = omega (arith, e, length-append pre d.key) in
    let mem1 = pre ++ (d.key ++ 0 ∷ tail) in
    (
      tail2,
      rw
          (
            strcpy_at d.key old mem pre x tail cpt (m ∙ ap (◌++◌ pre) split) e l,
            store_at mem1 front 0 tail (cpt + length d.key) b'='
                (sym (append_assoc pre d.key (0 ∷ tail))) at,
            strcpy_at d.value old2 (front ++ b'=' ∷ tail) eq_front y tail2 (cpt + length d.key + 1)
                (sym (append_assoc front (b'=' ∷ []) tail) ∙ ap (◌++◌ eq_front) split2)
                (omega (arith, at, length-append front (b'=' ∷ []))) l2,
          )
          (ap (λ b. ok (b, cpt + length d.key + 1 + length d.value))
            (append_assoc front (b'=' ∷ []) (d.value ++ 0 ∷ tail2)
              ∙ append_assoc pre d.key (b'=' ∷ (d.value ++ 0 ∷ tail2))
              ∙ ap (◌++◌ pre) (sym (append_assoc d.key (b'=' ∷ d.value) (0 ∷ tail2)))
              ∙ sym (append_assoc pre (duple_text d) (0 ∷ tail2)))),
      omega (arith, total, total2, size),
    )
