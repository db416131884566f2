-- ===== src/Buffer/Border.antt =====
-- Reads and writes at a known place of a buffer: right behind a prefix.
use gusher.Base.{
  ℕ, suc, ◌+◌, ◌<◌, ◌≡◌, ◌≢◌, refl, Bytes, [], ◌∷◌, ◌++◌, none, some, ok, length, length-append,
  get_elem?-append, set-append, drop-append, lt→ltb, All, arith,
}
use gusher.Buffer.{load, store, scan, index, text, text_at}

pub load_at :
    (mem xs : Bytes) (x : ℕ) (ys : Bytes) (i : ℕ)
    → mem ≡ xs ++ x ∷ ys
    → i ≡ length xs
    → load mem i ≡ ok x
unfolding load
load_at mem xs x ys i m e = rw (m, e, get_elem?-append)

pub store_at :
    (mem xs : Bytes) (x : ℕ) (ys : Bytes) (i v : ℕ)
    → mem ≡ xs ++ x ∷ ys
    → i ≡ length xs
    → store mem i v ≡ ok (xs ++ v ∷ ys)
unfolding store
store_at mem xs x ys i v m e =
    let inside : i < length (xs ++ x ∷ ys) = omega (arith, length-append xs (x ∷ ys)) in
    rw (m, lt→ltb _ _ inside, e, set-append)

-- No NUL, and no `c`.
abbrev pub Avoids : ℕ → Bytes → Type 0
Avoids c = All (λ x. (x ≢ 0) × (x ≢ c))

abbrev pub IsText : Bytes → Type 0
IsText = All (λ x. x ≢ 0)

pub scan-hit :
    (c : ℕ) (s rest : Bytes) (p : ℕ)
    → Avoids c s
    → scan (s ++ c ∷ rest) p c ≡ ok (some (p + length s))
unfolding scan
scan-hit c [] rest p a = ground arith
scan-hit c (x ∷ s) rest p a = ground (arith, scan-hit c s rest (suc p))

pub scan-miss :
    (c : ℕ) (s rest : Bytes) (p : ℕ) → c ≢ 0 → Avoids c s → scan (s ++ 0 ∷ rest) p c ≡ ok none
unfolding scan
scan-miss c [] rest p n a = ground arith
scan-miss c (x ∷ s) rest p n a = ground (arith, scan-miss c s rest (suc p))

pub text_lem : (s rest : Bytes) → IsText s → text (s ++ 0 ∷ rest) ≡ ok s
unfolding text
text_lem [] rest h = refl
text_lem (x ∷ s) rest h = ground (arith, text_lem s rest)

module _ (mem xs : Bytes) (i : ℕ) where
  pub index-hit :
      (c : ℕ) (s rest : Bytes)
      → mem ≡ xs ++ (s ++ c ∷ rest)
      → i ≡ length xs
      → Avoids c s
      → index mem i c ≡ ok (some (i + length s))
  unfolding index
  index-hit c s rest m e a = rw (m, e, drop-append) (scan-hit c s rest (length xs) a)

  pub index-miss :
      (c : ℕ) (s rest : Bytes)
      → mem ≡ xs ++ (s ++ 0 ∷ rest)
      → i ≡ length xs
      → c ≢ 0
      → Avoids c s
      → index mem i c ≡ ok none
  unfolding index
  index-miss c s rest m e n a = rw (m, e, drop-append) (scan-miss c s rest (length xs) n a)

  pub text_at_lem :
      (s rest : Bytes)
      → mem ≡ xs ++ (s ++ 0 ∷ rest)
      → i ≡ length xs
      → IsText s
      → text_at mem i ≡ ok s
  unfolding text_at
  text_at_lem s rest m e h = rw (m, e, drop-append) (text_lem s rest h)
