-- ===== src/Base.antt =====
-- The names that the other modules share: the libraries', passed on, Boolean tests on the native
-- numbers, signed integers, lists, and the machines by which the components are described.
mod Tests
mod Int
mod Lists
mod Machine
pub use Tests.*
pub use Int.*
pub use Lists.*
pub use Machine.*
pub use Prim.Native.Nat.{ℕ, zero, suc, ◌+◌, ◌-◌, ◌%◌, ◌^◌, ◌≤◌, ◌<◌}
pub use mathlib.Core.Path.{◌≡◌, refl, sym, ap, subst, ◌∙◌, fun_ext}
pub use mathlib.Core.Logic.{◌≢◌, ◌⊎◌, inl, inr}
pub use mathlib.Core.Bool.{Bool, true, false, not, ◌&&◌, ◌||◌}
pub use mathlib.Core.Option.{Option, none, some}
pub use mathlib.Core.List.{List, [], ◌∷◌, ◌++◌, reverse, reverse_aux}
pub use native.Mathlib.Omega.{arith}
