-- ===== src/Prelude.antt =====
-- The names that all modules share: the libraries', passed on, the Boolean tests on numbers, the
-- result type of code that may raise, and lists over the native numbers.
mod Tests
mod Results
mod Lists
mod Text
mod Padding
mod Whitespace
mod Trimming
pub use Tests.*
unfoldable pub use Results.*
unfoldable pub use Text.*
unfoldable pub use Lists.*
unfoldable pub use Padding.*
unfoldable pub use Whitespace.*
unfoldable pub use Trimming.*
pub use Prim.Native.Nat.{ℕ, zero, suc, ◌+◌, ◌-◌, ◌*◌, ◌/◌, ◌%◌, ◌^◌, ◌≤◌, ◌<◌}
pub use Prim.Native.String.{String}
pub use mathlib.Core.Path.{◌≡◌, refl, sym, ap, ◌∙◌}
pub use mathlib.Core.Logic.{◌≢◌, ◌↔◌, ◌⊎◌, inl, inr}
pub use mathlib.Core.Bool.{Bool, true, false, not, ◌&&◌, ◌||◌}
pub use mathlib.Core.Option.{Option, none, some}
pub use mathlib.Core.List.{List, [], ◌∷◌, ◌++◌, map, append_assoc, append-nil}
pub use native.Mathlib.Omega.{arith}
pub use text.Mathlib.Text.{◌==◌}
pub use text.Mathlib.TextEquality.{eq_iff}
pub use text.Mathlib.TextPositions.{eq_refl}
