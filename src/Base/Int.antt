-- ===== src/Base/Int.antt =====
-- C's `int`, where the program's values stay in range: an integer over the native numbers.
use Prim.Native.Nat.{ℕ, suc, ◌-◌, ◌≤◌, ◌+◌, ◌*◌, ◌%◌}
use gusher.Base.Tests.{ltb, leb, if◌then◌else◌}
use mathlib.Core.Bool.{Bool, true}
use mathlib.Core.Path.{◌≡◌}
use native.Mathlib.Omega.{arith}

-- `negsuc n` is -(n + 1).
pub data ℤ : Type 0 where
  pos : ℕ → ℤ
  negsuc : ℕ → ℤ

abbrev pub pos_part : ℤ → ℕ
pos_part (pos n) = n
pos_part (negsuc n) = 0

abbrev pub neg_part : ℤ → ℕ
neg_part (pos n) = 0
neg_part (negsuc n) = suc n

-- a - b, as an integer.
abbrev pub sub_ℕ : ℕ → ℕ → ℤ
sub_ℕ a b = if leb b a then pos (a - b) else negsuc (b - a - 1)

infix 50 ◌≤ℤ◌
abbrev pub ◌≤ℤ◌ : ℤ → ℤ → Type 0
a ≤ℤ b = pos_part a + neg_part b ≤ pos_part b + neg_part a

abbrev pub ltb_ℤ : ℤ → ℤ → Bool
ltb_ℤ a b = ltb (pos_part a + neg_part b) (pos_part b + neg_part a)

infixl 60 ◌+ℤ◌
abbrev pub ◌+ℤ◌ : ℤ → ℤ → ℤ
pos a +ℤ pos b = pos (a + b)
pos a +ℤ negsuc b = sub_ℕ a (suc b)
negsuc a +ℤ pos b = sub_ℕ b (suc a)
negsuc a +ℤ negsuc b = negsuc (suc (a + b))

-- a - k, for a number k that the code writes.
abbrev pub minus : ℤ → ℕ → ℤ
minus (pos a) k = sub_ℕ a k
minus (negsuc a) k = negsuc (a + k)

-- a times k.
abbrev pub times : ℤ → ℕ → ℤ
times (pos a) k = pos (a * k)
times (negsuc a) k = sub_ℕ 0 (suc a * k)

abbrev pub negate : ℤ → ℤ
negate (pos n) = sub_ℕ 0 n
negate (negsuc n) = pos (suc n)

-- The value of a number cut to a 32-bit `int`.
abbrev pub to_int32 : ℤ → ℤ
to_int32 (pos n) =
    let m = n % 4294967296 in if ltb m 2147483648 then pos m else negsuc (4294967295 - m)
to_int32 (negsuc n) =
    let m = n % 4294967296 in if ltb m 2147483648 then negsuc m else pos (4294967295 - m)

abbrev pub fits_int32 : ℤ → Bool
fits_int32 (pos n) = ltb n 2147483648
fits_int32 (negsuc n) = ltb n 2147483648

pub to_int32-fits_int32 : (a : ℤ) → fits_int32 a ≡ true → to_int32 a ≡ a
to_int32-fits_int32 (pos n) h = ground arith
to_int32-fits_int32 (negsuc n) h = ground arith

pub minus_add : (a : ℤ) (k : ℕ) → minus a k +ℤ pos k ≡ a
minus_add (pos a) k = ground arith
minus_add (negsuc a) k = ground arith
