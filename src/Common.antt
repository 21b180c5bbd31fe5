-- ===== src/Common.antt =====
-- The names that the other modules share: the libraries', passed on, and those of the children.
mod Tests
mod Lists
mod Ascii
pub mod Int
pub mod Sort
pub mod Split
pub mod Order
pub mod OrderLaws
pub mod Text
pub mod Tables
pub mod Nibbles
pub mod Utf8
pub mod Decimal
pub mod Results
pub mod Assoc
pub mod Equal
pub mod Distinct
pub use Tests.*
pub use Lists.*
unfoldable pub use Ascii.{bytes_eq}
pub use Ascii.{
  Bytes, IsByte, codes, bytes_eq_refl, bytes_eq→eq, is_digit, is_lower, is_upper, is_alpha,
  is_alphanumeric, to_upper, to_lower,
}
pub use Prim.Native.Nat.{ℕ, zero, suc, ◌+◌, ◌-◌, ◌*◌, ◌/◌, ◌%◌, ◌^◌, ◌≤◌, ◌<◌}
pub use mathlib.Core.Path.{◌≡◌, refl, sym, ap, ◌∙◌}
pub use mathlib.Core.Logic.{◌≢◌, ◌↔◌, ◌⊎◌, inl, inr}
pub use mathlib.Core.Bool.{Bool, true, false, not, ◌&&◌, ◌||◌}
pub use mathlib.Core.Option.{Option, none, some}
pub use mathlib.Core.List.{List, [], ◌∷◌, ◌++◌, map}
pub use native.Mathlib.Omega.{arith}
