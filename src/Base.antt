-- ===== src/Base.antt =====
-- The names that every module shares: the libraries', passed on, and those of the children.
-- `Tests` has Boolean tests, `Results` the error values, `Lists` the lists over the native
-- numbers, `Keys` the keys, and `Map` the association list that stands for Rust's `HashMap`.
mod Tests
mod Lists
mod Results
mod Keys
mod Words
pub mod Hash
pub mod Sorted
pub mod Map
pub use Tests.*
pub use Lists.*
pub use Results.*
pub use Keys.*
pub use Words.*
pub use Prim.Native.Nat.{
  ℕ, zero, suc, ◌+◌, ◌-◌, ◌*◌, ◌/◌, ◌%◌, ◌^◌, ◌≤◌, ◌<◌, max, min, compare, Ordering,
}
pub use Prim.Native.String.{String}
pub use mathlib.Core.Path.{◌≡◌, refl, sym, ap, ◌∙◌, subst}
pub use mathlib.Core.Logic.{◌≢◌, ◌↔◌, ◌⊎◌, inl, inr}
pub use mathlib.Core.Bool.{Bool, true, false, not, ◌&&◌, ◌||◌}
pub use mathlib.Core.Option.{Option, none, some}
pub use mathlib.Core.List.{List, [], ◌∷◌, ◌++◌, map, reverse}
pub use native.Mathlib.Omega.{arith}
