-- ===== src/Base.antt =====
-- The names that the modules of this library share: those of the mounted libraries, passed on, and
-- those of three children: Boolean tests, lists and C strings. Further children hold integers, the decimal
-- numerals of printf and the results of calls that can fault.
mod Tests
mod Lists
mod CString
pub mod Decimal
pub mod Run
pub mod Int
pub use Tests.*
pub use Lists.*
unfoldable pub use CString.{streq, strcmp}
pub use CString.{Text, codes, streq_refl, streq_symm, streq→eq, streq_iff}
pub use Prim.Native.Nat.{ℕ, zero, suc, ◌+◌, ◌-◌, ◌*◌, ◌/◌, ◌%◌, ◌^◌, ◌≤◌, ◌<◌}
pub use mathlib.Core.Path.{◌≡◌, refl, sym, ap, ◌∙◌}
pub use mathlib.Core.Logic.{◌≢◌, ◌↔◌, ◌⊎◌, inl, inr}
pub use mathlib.Core.Bool.{Bool, true, false, ◌&&◌, ◌||◌, not}
pub use mathlib.Core.Option.{Option, none, some}
pub use mathlib.Core.List.{List, [], ◌∷◌, ◌++◌, map}
pub use native.Mathlib.Omega.{arith}
