-- ===== src/Buffer.antt =====
-- C text held in a buffer that the program changes in place: the buffer is the list of its bytes,
-- NULs included, and a pointer is an index into it. An access outside the buffer is a fault.
pub mod Border
use gusher.Base.{
  ℕ, zero, suc, ◌+◌, Bytes, List, [], ◌∷◌, ◌==◌, if◌then◌else◌, Option, none, some, Run, ok, fault,
  ◌>>=◌, or_fault, get_elem?, set, drop, length, ltb,
}

-- `*p`
unfoldable pub load : Bytes → ℕ → Run ℕ
load mem p = or_fault (get_elem? mem p)

-- `*p = v`
unfoldable pub store : Bytes → ℕ → ℕ → Run Bytes
store mem p v = if ltb p (length mem) then ok (set mem p v) else fault

-- `index(s, c)` on the bytes from `s` on, with `p` the address of the first of them.
unfoldable pub scan : Bytes → ℕ → ℕ → Run (Option ℕ)
scan [] p c = fault
scan (x ∷ xs) p c = if x == c then ok (some p) else if x == 0 then ok none else scan xs (suc p) c

unfoldable pub index : Bytes → ℕ → ℕ → Run (Option ℕ)
unfolding scan
index mem p c = scan (drop p mem) p c

-- The string that starts the bytes: those before the first NUL.
unfoldable pub text : Bytes → Run Bytes
text [] = fault
text (x ∷ xs) = if x == 0 then ok [] else (text xs >>= λ s. ok (x ∷ s))

-- The string at `p`, as `scm_from_locale_string` and `makesym` read it.
unfoldable pub text_at : Bytes → ℕ → Run Bytes
unfolding text
text_at mem p = text (drop p mem)
