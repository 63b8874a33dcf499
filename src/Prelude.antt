-- ===== src/Prelude.antt =====
-- The names that all modules share: the libraries', passed on, and those of the children.
mod Tests
mod Lists
mod Results
mod BigEndian
mod Strings
mod Lines
mod Search
mod Sort
mod Paths
mod Numbers
mod Integers
mod Fields
pub use Tests.*
pub use Lists.*
pub use Results.*
unfoldable pub use Lines.*
unfoldable pub use Search.*
unfoldable pub use Sort.*
unfoldable pub use Paths.*
unfoldable pub use Numbers.*
unfoldable pub use Integers.*
unfoldable pub use Fields.*
unfoldable pub use Strings.*
unfoldable pub use BigEndian.*
pub use Prim.Native.Nat.{ℕ, zero, suc, ◌+◌, ◌-◌, ◌*◌, ◌/◌, ◌%◌, ◌^◌, ◌≤◌, ◌<◌, min, max}
pub use mathlib.Core.Path.{◌≡◌, refl, sym, ap, ap₂, ◌∙◌, subst, fun_ext, ◌≡⟨◌⟩◌, ◌∎}
pub use mathlib.Core.Logic.{◌≢◌, ◌↔◌, ◌⊎◌, inl, inr}
pub use mathlib.Core.Bool.{Bool, true, false, not, ◌&&◌, ◌||◌}
pub use mathlib.Core.Option.{Option, none, some}
pub use mathlib.Core.List.{List, [], ◌∷◌, ◌++◌, map, append-nil, append_assoc}
pub use native.Mathlib.Omega.{arith}
