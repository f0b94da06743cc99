-- ===== src/Base.antt =====
-- The names that the modules of the development share: the libraries', passed on, and those of
-- the children.
mod Tests
mod Lists
mod Sort
mod Chunks
mod Repeats
mod Mapped
mod Bytes
pub mod Results
pub use Tests.*
unfoldable pub use Lists.*
unfoldable pub use Sort.*
pub use Repeats.*
unfoldable pub use Chunks.*
pub use Mapped.*
unfoldable pub use Bytes.*
pub use Results.{Result, err, ok}
pub use Prim.Native.Nat.{ℕ, zero, suc, ◌+◌, ◌-◌, ◌*◌, ◌/◌, ◌%◌, ◌^◌, ◌≤◌, ◌<◌, min, max}
pub use mathlib.Core.Path.{◌≡◌, refl, sym, ap, ◌∙◌, subst}
pub use mathlib.Core.Logic.{◌≢◌, ◌↔◌, ◌⊎◌, inl, inr, ⊎_elim}
pub use mathlib.Core.Bool.{Bool, true, false, not, ◌&&◌, ◌||◌}
pub use mathlib.Core.Option.{Option, none, some}
pub use mathlib.Core.List.{List, [], ◌∷◌, ◌++◌, map}
pub use native.Mathlib.Omega.{arith}
unfoldable pub use native.Mathlib.Decide.{ℕ_discrete}
