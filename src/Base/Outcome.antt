-- ===== src/Base/Outcome.antt =====
-- The outcome of C code that reads and writes memory: a result, a fault (an access outside the
-- allocation, or through a null pointer), a Scheme exception that leaves the function, or fuel
-- that ran out.
use mathlib.Core.Option.{Option, none, some}
use mathlib.Core.Path.{◌≡◌, refl, ap, ◌∙◌, fun_ext}

pub data Run {ℓ} (A : Type ℓ) : Type ℓ where
  ok : A → Run A
  fault : Run A
  thrown : Run A
  out_of_fuel : Run A

infixl 5 ◌>>=◌
abbrev pub ◌>>=◌ {ℓ κ} : {A : Type ℓ} {B : Type κ} → Run A → (A → Run B) → Run B
ok a >>= f = f a
fault >>= f = fault
thrown >>= f = thrown
out_of_fuel >>= f = out_of_fuel

-- A read that may lie outside the allocation.
abbrev pub or_fault {ℓ} : {A : Type ℓ} → Option A → Run A
or_fault none = fault
or_fault (some a) = ok a

pub ok_injective {ℓ} : {A : Type ℓ} {a b : A} → ok a ≡ ok b → a ≡ b
ok_injective h = cc

pub some_injective {ℓ} : {A : Type ℓ} {a b : A} → some a ≡ some b → a ≡ b
some_injective h = cc

pub bind_assoc {ℓ} :
    {A B C : Type ℓ} (m : Run A) (f : A → Run B) (g : B → Run C)
    → (m >>= f >>= g) ≡ (m >>= λ a. f a >>= g)
bind_assoc (ok a) f g = refl
bind_assoc fault f g = refl
bind_assoc thrown f g = refl
bind_assoc out_of_fuel f g = refl

pub bind_same {ℓ} :
    {A B : Type ℓ} {m n : Run A} {f g : A → Run B}
    → m ≡ n
    → ((a : A) → f a ≡ g a)
    → (m >>= f) ≡ (n >>= g)
bind_same {n = n} {f} h k = ap (λ m. m >>= f) h ∙ ap (◌>>=◌ n) (fun_ext k)

pub bind_ok {ℓ} : {A : Type ℓ} (m : Run A) → m ≡ (m >>= λ a. ok a)
bind_ok (ok a) = refl
bind_ok fault = refl
bind_ok thrown = refl
bind_ok out_of_fuel = refl

-- What a sequence that gives a result has gone through.
pub bind_inverse {ℓ} :
    {A B : Type ℓ} (m : Run A) (f : A → Run B) (b : B)
    → (m >>= f) ≡ ok b
    → (a : A) × (m ≡ ok a) × (f a ≡ ok b)
bind_inverse (ok a) f b h = (a, refl, h)
bind_inverse fault f b h = absurd (cc)
bind_inverse thrown f b h = absurd (cc)
bind_inverse out_of_fuel f b h = absurd (cc)
