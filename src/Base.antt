-- ===== src/Base.antt =====
-- The names that the other modules share: the libraries', passed on, and those of the children.
mod Tests
mod Lists
mod Outcome
mod Ctype
mod Int
pub use Tests.*
pub use Lists.*
pub use Outcome.*
pub use Int.*
unfoldable pub use Ctype.{
  is_digit, is_upper, is_lower, is_alpha, is_xdigit, is_space, to_upper, to_lower,
}
pub use Prim.Native.Nat.{ℕ, zero, suc, ◌+◌, ◌-◌, ◌*◌, ◌/◌, ◌%◌, ◌^◌, ◌≤◌, ◌<◌, min, max}
pub use mathlib.Core.Bool.{Bool, true, false, not, ◌&&◌, ◌||◌}
pub use mathlib.Core.List.{
  List, [], ◌∷◌, ◌++◌, map, reverse, append-nil, append_assoc, map-append, reverse-append,
}
pub use mathlib.Core.Logic.{◌≢◌, ◌↔◌, ◌⊎◌, inl, inr}
pub use mathlib.Core.Option.{Option, none, some}
pub use mathlib.Core.Path.{◌≡◌, refl, sym, ap, ◌∙◌, subst}
pub use native.Mathlib.Omega.{arith}

-- Bytes of C memory; a `char` stands as its unsigned value below 256.
abbrev pub Bytes : Type 0
Bytes = List ℕ
