-- ===== src/Base/Ctype.antt =====
-- The C library's character classes, in the "C" locale.
use Prim.Native.Nat.{ℕ, ◌+◌, ◌-◌}
use gusher.Base.Tests.{leb, ◌==◌, if◌then◌else◌}
use mathlib.Core.Bool.{Bool, ◌&&◌, ◌||◌}

abbrev within : ℕ → ℕ → ℕ → Bool
within lo hi c = leb lo c && leb c hi

unfoldable pub is_digit : ℕ → Bool
is_digit c = within b'0' b'9' c

unfoldable pub is_upper : ℕ → Bool
is_upper c = within b'A' b'Z' c

unfoldable pub is_lower : ℕ → Bool
is_lower c = within b'a' b'z' c

unfoldable pub is_alpha : ℕ → Bool
is_alpha c = within b'A' b'Z' c || within b'a' b'z' c

unfoldable pub is_xdigit : ℕ → Bool
is_xdigit c = within b'0' b'9' c || within b'A' b'F' c || within b'a' b'f' c

-- Space, tab, newline, vertical tab, form feed, carriage return.
unfoldable pub is_space : ℕ → Bool
is_space c = c == 32 || within 9 13 c

unfoldable pub to_upper : ℕ → ℕ
unfolding is_lower
to_upper c = if within b'a' b'z' c then c - 32 else c

unfoldable pub to_lower : ℕ → ℕ
unfolding is_upper
to_lower c = if within b'A' b'Z' c then c + 32 else c
