-- ===== src/Prelude.antt =====
-- Names shared by the modules of the development: the libraries' names passed on, tests on native
-- numbers, lists indexed by native numbers, and machine words.
mod Tests
mod Lists
mod Words
mod Objects
mod Members
mod Options
mod Table
pub use Tests.*
pub use Lists.*
pub use Words.*
pub use Objects.*
pub use Members.*
pub use Options.*
pub use Table.{all_below_sound}
unfoldable pub use Table.{all_below}
pub use Prim.Native.Nat.{ℕ, zero, suc, ◌+◌, ◌-◌, ◌*◌, ◌/◌, ◌%◌, ◌^◌, ◌≤◌, ◌<◌}
pub use mathlib.Core.Path.{◌≡◌, refl, sym, ap, ◌∙◌}
pub use mathlib.Core.Logic.{◌≢◌, ◌↔◌, ◌⊎◌, inl, inr}
pub use mathlib.Core.Bool.{Bool, true, false, not, ◌&&◌, ◌||◌}
pub use mathlib.Core.Option.{Option, none, some}
pub use mathlib.Core.List.{List, [], ◌∷◌, ◌++◌, map}
pub use native.Mathlib.Omega.{arith}
