-- ===== src/Base.antt =====
-- The names that the other modules share: the libraries' names that the models use, and those of
-- the modules below on Boolean tests, lists, equality of keys, hash maps and outcomes.
mod Tests
mod Lists
mod Equality
mod Fallible
pub mod HashMap
pub mod HashSet
pub mod Departures
pub use Tests.*
pub use Lists.*
pub use Equality.{Eq, ◌==◌, nat_eq, bool_eq, list_eq, pair_eq, eq_refl, eq→path, ne→false}
pub use Fallible.*
pub use Prim.Native.Nat.{ℕ, zero, suc, ◌+◌, ◌-◌, ◌*◌, ◌/◌, ◌%◌, ◌^◌, ◌≤◌, ◌<◌}
pub use mathlib.Core.Path.{◌≡◌, refl, sym, ap, ap₂, subst, subst₂, ◌∙◌}
pub use mathlib.Core.Logic.{◌≢◌, ◌↔◌, ◌⊎◌, inl, inr}
pub use mathlib.Core.Bool.{Bool, true, false, not, ◌&&◌, ◌||◌}
pub use mathlib.Core.Option.{Option, none, some, some-injective}
pub use mathlib.Core.List.{List, [], ◌∷◌, ◌++◌, map, append-nil, append_assoc}
pub use native.Mathlib.Nat.{add_assoc, add-zero}
pub use native.Mathlib.Omega.{arith}
