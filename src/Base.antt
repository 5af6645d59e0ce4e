-- ===== src/Base.antt =====
-- Names shared by every module: the libraries' names, passed on, with the project's own tests on
-- numbers, keyed tables and the error-and-state monad of a kernel transaction.
mod Tests
mod Lists
pub mod Select
pub mod Table
pub mod Pairs
pub mod OrderedSet
pub mod Evolves
pub mod Int
pub mod Txn
pub use Tests.*
pub use Lists.*
pub use Prim.Native.Nat.{ℕ, zero, suc, ◌+◌, ◌-◌, ◌*◌, ◌≤◌, ◌<◌, min, max}
pub use Prim.Native.String.{String}
pub use mathlib.Core.Path.{◌≡◌, refl, sym, ap, ◌∙◌, subst}
pub use mathlib.Core.Logic.{◌≢◌, ◌↔◌, ◌⊎◌, inl, inr}
pub use mathlib.Core.Bool.{Bool, true, false, not, ◌&&◌, ◌||◌}
pub use mathlib.Core.Option.{Option, none, some}
pub use mathlib.Core.List.{List, [], ◌∷◌, ◌++◌, map}
pub use native.Mathlib.Omega.{arith}
