-- ===== src/Base.antt =====
-- The names that the other modules share.
pub mod Tests
pub mod Text
pub mod Columns
pub mod Effect
pub mod Prisma
pub mod Dates
unfoldable pub use Tests.*
unfoldable pub use Text.*
unfoldable pub use Columns.*
unfoldable pub use Effect.*
unfoldable pub use Prisma.*
unfoldable pub use Dates.*
pub use Prim.Native.Nat.{ℕ, zero, suc, ◌+◌, ◌-◌, ◌*◌, ◌/◌, ◌%◌, ◌≤◌, ◌<◌}
pub use Prim.Native.String.{String}
pub use mathlib.Core.Path.{◌≡◌, refl, sym, ap, subst, ◌∙◌}
pub use mathlib.Core.Logic.{◌≢◌, ◌↔◌, ◌⊎◌, inl, inr}
pub use mathlib.Core.Bool.{Bool, true, false, not, ◌&&◌, ◌||◌}
pub use mathlib.Core.Option.{Option, none, some}
pub use mathlib.Core.List.{List, [], ◌∷◌, ◌++◌, map}
pub use native.Mathlib.Omega.{arith}
