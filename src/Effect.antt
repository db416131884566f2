-- ===== src/Effect.antt =====
-- Steps on the statics of a C file, in sequence. A step gives its outcome and the statics as it
-- leaves them, also where it raises an exception.
use gusher.Base.{Run, ok, fault, thrown, out_of_fuel}

abbrev pub M : Type 0 → Type 0 → Type 0
M S A = S → Run A × S

abbrev pub bind_next : {S A B : Type 0} → Run A × S → (A → M S B) → Run B × S
bind_next (ok a, s) f = f a s
bind_next (fault, s) f = (fault, s)
bind_next (thrown, s) f = (thrown, s)
bind_next (out_of_fuel, s) f = (out_of_fuel, s)

infixl 5 ◌>>=◌ ◌>>◌
abbrev pub ◌>>=◌ : {S A B : Type 0} → M S A → (A → M S B) → M S B
◌>>=◌ m f s = bind_next (m s) f

abbrev pub ◌>>◌ : {S B : Type 0} → M S (Unit {0}) → M S B → M S B
m >> k = m >>= λ _. k

abbrev pub pure : {S A : Type 0} → A → M S A
pure a s = (ok a, s)

-- A computation that does not look at the statics.
abbrev pub lift : {S A : Type 0} → Run A → M S A
lift r s = (r, s)
