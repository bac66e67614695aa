-- ===== src/Prelude.antt =====
-- The names that the modules share: the libraries', passed on, the Boolean tests on the native
-- numbers, texts as lists of code points, mappings from texts, and the lemmas on lists.
mod Tests
mod Lists
mod Texts
mod Mappings
pub use Tests.*
pub use Lists.*
unfoldable pub use Texts.*
unfoldable pub use Mappings.*
pub use Prim.Native.Nat.{ℕ, zero, suc, ◌+◌, ◌-◌, ◌*◌, ◌≤◌, ◌<◌, max}
pub use Prim.Native.String.{String}
pub use mathlib.Core.Path.{◌≡◌, refl, sym, ap, ◌∙◌, subst}
pub use mathlib.Core.Logic.{◌≢◌, ◌↔◌, ◌⊎◌, inl, inr}
pub use mathlib.Core.Bool.{Bool, true, false, not, ◌&&◌, ◌||◌, false≢true}
pub use mathlib.Core.Option.{Option, none, some}
pub use mathlib.Core.List.{List, [], ◌∷◌, ◌++◌, map, append-nil, append_assoc}
pub use native.Mathlib.Omega.{arith}
