-- ===== src/Prelude.antt =====
-- Names that every other module shares: the libraries' names passed on, Boolean tests, list
-- functions over the native numbers, and Go's signed integers.
mod Tests
mod Lists
mod Errors
pub mod Dict
pub mod Reorder
mod Int
pub use Tests.*
pub use Int.{ℤ, pos, negsuc, is_neg, is_nonpos, to_ℕ}
pub use Lists.*
pub use Errors.{Result, Result-cases, ok, err}
pub use Prim.Native.Nat.{ℕ, zero, suc, ◌+◌, ◌-◌, ◌*◌, ◌/◌, ◌%◌, ◌^◌, ◌≤◌, ◌<◌, min}
pub use Prim.Native.String.{String}
pub use mathlib.Core.Path.{◌≡◌, refl, sym, ap, ◌∙◌, subst}
pub use mathlib.Core.Logic.{◌≢◌, ◌↔◌, ◌⊎◌, inl, inr}
pub use mathlib.Core.Bool.{Bool, true, false, not, ◌&&◌, ◌||◌}
pub use mathlib.Core.Option.{Option, none, some}
pub use mathlib.Core.List.{List, [], ◌∷◌, ◌++◌, map, append-nil, append_assoc, Perm}
pub use native.Mathlib.Omega.{arith}
pub use text.Mathlib.Text.{◌==◌ as str_eq}
pub use text.Mathlib.TextEquality.{eq_iff}
