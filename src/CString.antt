-- ===== src/CString.antt =====
-- The C library's string functions that the program calls, on a string given by its bytes up to
-- the terminating NUL.
use Prim.Native.Char.{code}
use Prim.Native.String.{String}
use gusher.Base.{
  ℕ, zero, suc, ◌≡◌, ◌↔◌, refl, Bool, true, false, ◌&&◌, Bytes, [], ◌∷◌, ◌++◌, ◌==◌, if◌then◌else◌,
  Option, none, some, length, drop, arith,
}

-- The bytes of a literal; every literal below is ASCII.
abbrev pub codes : String → Bytes
codes String.[] = []
codes (String.◌∷◌ c s) = code c ∷ codes s

-- `strncmp(s, t, n) == 0`
unfoldable pub strncmp_zero : ℕ → Bytes → Bytes → Bool
strncmp_zero zero s t = true
strncmp_zero (suc n) [] [] = true
strncmp_zero (suc n) (a ∷ s) (b ∷ t) = a == b && strncmp_zero n s t
strncmp_zero (suc n) _ _ = false

-- `strcmp(s, t) == 0`, and equality of symbols.
unfoldable pub strcmp_zero : Bytes → Bytes → Bool
strcmp_zero [] [] = true
strcmp_zero (a ∷ s) (b ∷ t) = a == b && strcmp_zero s t
strcmp_zero _ _ = false

pub strcmp_zero_iff : (s t : Bytes) → (strcmp_zero s t ≡ true) ↔ (s ≡ t)
unfolding strcmp_zero
strcmp_zero_iff (a ∷ s) (b ∷ t) = ground (arith, strcmp_zero_iff s t)
strcmp_zero_iff _ _ = ground arith

pub strncmp_zero-length :
    (p s : Bytes) → (strncmp_zero (length p) p s ≡ true) ↔ (s ≡ p ++ drop (length p) s)
unfolding strncmp_zero
strncmp_zero-length [] s = ground arith
strncmp_zero-length (a ∷ p) [] = ground arith
strncmp_zero-length (a ∷ p) (b ∷ s) = ground (arith, strncmp_zero-length p s)

pub strncmp_zero-append : (p s : Bytes) → strncmp_zero (length p) p (p ++ s) ≡ true
unfolding strncmp_zero
strncmp_zero-append [] s = refl
strncmp_zero-append (a ∷ p) s = ground (arith, strncmp_zero-append p s)

-- `index(s, c)`, for a `c` that is not NUL: the text before the first `c`, and the text behind it.
unfoldable pub split_at : ℕ → Bytes → Option (Bytes × Bytes)
split_at c [] = none
split_at c (a ∷ s) =
    if a == c
    then some ([], s)
    else elim (split_at c s) [ none ↦ none | some (l, r) ↦ some (a ∷ l, r) ]

-- `strstr(s, t)` for a `t` that is not empty: the text from where `t` first stands.
abbrev pub strstr : Bytes → Bytes → Option Bytes
strstr [] t = none
strstr (c ∷ s) t =
    let further = strstr s t in if strncmp_zero (length t) (c ∷ s) t then some (c ∷ s) else further
