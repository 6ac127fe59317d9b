-- ===== src/Prelude.antt =====
-- The names that all modules share: those of the libraries, passed on, the Boolean tests on native
-- numbers, lists measured by native numbers, C strings, and the heap blocks of the C containers.
mod Tests
mod Lists
mod Numbers
pub mod Mem
pub mod Text
pub mod Int
pub mod Exec
pub use Tests.*
pub use Lists.*
pub use Numbers.*
pub use Prim.Native.Nat.{ℕ, zero, suc, ◌+◌, ◌-◌, ◌*◌, ◌/◌, ◌%◌, ◌^◌, ◌≤◌, ◌<◌, min, max}
pub use mathlib.Core.Path.{◌≡◌, refl, sym, ap, ap₂, ◌∙◌}
pub use mathlib.Core.Logic.{◌≢◌, ◌↔◌, ◌⊎◌, inl, inr}
pub use mathlib.Core.Bool.{Bool, true, false, not, ◌&&◌, ◌||◌}
pub use mathlib.Core.Option.{Option, none, some}
pub use mathlib.Core.List.{List, [], ◌∷◌, ◌++◌, map, append-nil, append_assoc}
pub use native.Mathlib.Omega.{arith}
