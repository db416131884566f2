-- ===== src/Request/Line.antt =====
-- `mygetline` of src/main.c on lines that end in CR LF, and on lines that do not fit.
use gusher.Base.{
  ℕ, suc, ◌+◌, ◌-◌, ◌≤◌, ◌<◌, ◌≡◌, ◌≢◌, refl, sym, ap, ◌∙◌, Bool, true, false, Bytes, [], ◌∷◌, ◌++◌,
  append_assoc, leb, ◌==◌, ok, length, drop, length-append, All, arith,
}
use gusher.Buffer.{store}
use gusher.Buffer.Border.{load_at, store_at}
use gusher.Request.{Stream, getline_ok, too_long, end_line, getline_loop, mygetline}

-- No newline.
abbrev pub IsLine : Bytes → Type 0
IsLine = All (λ x. x ≢ 10)

not_beyond : (i len : ℕ) → i < len → leb len i ≡ false
not_beyond i len h = ground arith

snoc : (xs : Bytes) (x : ℕ) (ys : Bytes) → xs ++ x ∷ ys ≡ (xs ++ x ∷ []) ++ ys
snoc xs x ys = sym (append_assoc xs (x ∷ []) ys)

length-snoc : (xs : Bytes) (x : ℕ) → length (xs ++ x ∷ []) ≡ suc (length xs)
length-snoc xs x = omega (arith, length-append xs (x ∷ []))

module _ (len : ℕ) (broken : Bool) where
  getline_feed :
      (rest : Bytes) (mem pre : Bytes) (x y : ℕ) (more : Bytes) (i : ℕ)
      → mem ≡ pre ++ x ∷ y ∷ more
      → i ≡ length pre
      → length pre + 2 ≤ len
      → getline_loop len broken mem i (13 ∷ 10 ∷ rest) ≡ ok (getline_ok, pre ++ 0 ∷ 10 ∷ more, rest)
  unfolding getline_loop end_line
  getline_feed rest mem pre x y more i m e room =
      let pre' = pre ++ 13 ∷ [] in
      let i' : suc i ≡ length pre' = omega (arith, e, length-snoc pre 13) in
      rw
        (
          not_beyond i len (omega arith),
          store_at mem pre x (y ∷ more) i 13 m e,
          not_beyond (suc i) len (omega arith),
          store_at (pre ++ 13 ∷ y ∷ more) pre' y more (suc i) 10 (snoc pre 13 (y ∷ more)) i',
          load_at (pre' ++ 10 ∷ more) pre 13 (10 ∷ more) i (sym (snoc pre 13 (10 ∷ more))) e,
          store_at (pre' ++ 10 ∷ more) pre 13 (10 ∷ more) i 0 (sym (snoc pre 13 (10 ∷ more))) e,
        )
        refl

  -- The line takes the place of the buffer's bytes `old`.
  pub getline_loop-line :
      (rest line old : Bytes) (mem pre : Bytes) (x y : ℕ) (more : Bytes) (i : ℕ)
      → IsLine line
      → length old ≡ length line
      → mem ≡ pre ++ (old ++ x ∷ y ∷ more)
      → i ≡ length pre
      → length pre + length line + 2 ≤ len
      → getline_loop len broken mem i (line ++ 13 ∷ 10 ∷ rest)
        ≡ ok (getline_ok, pre ++ (line ++ 0 ∷ 10 ∷ more), rest)
  unfolding getline_loop
  getline_loop-line rest [] [] mem pre x y more i h l m e room =
      getline_feed rest mem pre x y more i m e (omega arith)
  getline_loop-line rest (c ∷ line) (o ∷ old) mem pre x y more i h l m e room =
      let tail = old ++ x ∷ y ∷ more in
      let ne : (c == 10) ≡ false = ground (arith, h.0) in
      let next =
        getline_loop-line rest line old (pre ++ c ∷ tail) (pre ++ c ∷ []) x y more (suc i) h.1
          (omega arith) (snoc pre c tail) (omega (arith, e, length-snoc pre c))
          (omega (arith, length-snoc pre c)) in
      rw (not_beyond i len (omega arith), store_at mem pre o tail i c m e, ne)
        (next ∙ ap (λ b. ok (getline_ok, b, rest)) (sym (snoc pre c (line ++ 0 ∷ 10 ∷ more))))
  getline_loop-line rest [] (o ∷ old) mem pre x y more i h l m e room = absurd (omega arith)
  getline_loop-line rest (c ∷ line) [] mem pre x y more i h l m e room = absurd (omega arith)

-- A buffer with room for a line and its end.
split_mem :
    (mem line : Bytes)
    → length line + 2 ≤ length mem
    → (old : Bytes) × (x : ℕ) × (y : ℕ) × (length old ≡ length line)
      × (mem ≡ old ++ x ∷ y ∷ drop (suc (suc (length line))) mem)
split_mem (x ∷ y ∷ mem) [] h = ([], x, y, refl, refl)
split_mem (o ∷ mem) (c ∷ line) h =
    let (old, x, y, e, m) = split_mem mem line (omega arith) in
    (o ∷ old, x, y, ap suc e, ap (◌∷◌ o) m)
split_mem [] line h = absurd (omega arith)
split_mem (x ∷ []) [] h = absurd (omega arith)

-- A line that ends in CR LF and fits: the buffer starts with it and a NUL, the rest of the bytes
-- is still to come.
pub mygetline-line :
    (fd : Stream) (line rest mem : Bytes) (len : ℕ)
    → fd.pending ≡ line ++ 13 ∷ 10 ∷ rest
    → IsLine line
    → length mem ≡ len
    → length line + 2 ≤ len
    → mygetline fd mem len
      ≡ ok (
        getline_ok,
        line ++ 0 ∷ 10 ∷ drop (suc (suc (length line))) mem,
        record fd { pending = rest },
      )
unfolding mygetline
mygetline-line fd line rest mem len p h l room =
    let (old, x, y, e, m) = split_mem mem line (omega arith) in
    rw
      (
        p,
        getline_loop-line len fd.broken rest line old mem [] x y
            (drop (suc (suc (length line))) mem) 0 h e m refl (omega arith),
      )
      refl

-- A line that does not fit: the buffer is full, and cut by a NUL in its last byte.
getline_loop-long :
    (len : ℕ) (broken : Bool) (rest line old mem pre : Bytes) (i : ℕ)
    → IsLine line
    → length old ≡ length line
    → mem ≡ pre ++ old
    → i ≡ length pre
    → length pre + length line ≡ len
    → (cut : Bytes) → store (pre ++ line) (len - 1) 0 ≡ ok cut
    → getline_loop len broken mem i (line ++ rest) ≡ ok (too_long, cut, rest)
unfolding getline_loop
getline_loop-long len broken [] [] [] mem pre i h l m e room cut q =
    let full : leb len i ≡ true = ground arith in rw (full, m, q) refl
getline_loop-long len broken (c ∷ rest) [] [] mem pre i h l m e room cut q =
    let full : leb len i ≡ true = ground arith in rw (full, m, q) refl
getline_loop-long len broken rest (c ∷ line) (o ∷ old) mem pre i h l m e room cut q =
    let ne : (c == 10) ≡ false = ground (arith, h.0) in
    rw (not_beyond i len (omega arith), store_at mem pre o old i c m e, ne)
      (getline_loop-long len broken rest line old (pre ++ c ∷ old) (pre ++ c ∷ []) (suc i) h.1
        (omega arith) (snoc pre c old) (omega (arith, e, length-snoc pre c))
        (omega (arith, length-snoc pre c)) cut
        (ap (λ b. store b (len - 1) 0) (sym (snoc pre c line)) ∙ q))
getline_loop-long len broken rest [] (o ∷ old) mem pre i h l m e room cut q = absurd (omega arith)
getline_loop-long len broken rest (c ∷ line) [] mem pre i h l m e room cut q = absurd (omega arith)

-- A line that fills the buffer of len bytes without a newline gives GETLINE_TOO_LONG: the buffer
-- holds its first len - 1 bytes and a NUL, and exactly len bytes are taken from the stream.
pub mygetline-long :
    (fd : Stream) (line : Bytes) (last : ℕ) (rest mem : Bytes) (len : ℕ)
    → fd.pending ≡ (line ++ last ∷ []) ++ rest
    → IsLine (line ++ last ∷ [])
    → length mem ≡ len
    → length line + 1 ≡ len
    → mygetline fd mem len ≡ ok (too_long, line ++ 0 ∷ [], record fd { pending = rest })
unfolding mygetline
mygetline-long fd line last rest mem len p h l room =
    let whole = line ++ last ∷ [] in
    let n : length whole ≡ suc (length line) = length-snoc line last in
    rw
      (
        p,
        getline_loop-long len fd.broken rest whole mem mem [] 0 h (omega (arith, l, room, n)) refl
            refl (omega (arith, room, n)) (line ++ 0 ∷ [])
            (store_at whole line last [] (len - 1) 0 refl (omega (arith, room))),
      )
      refl
