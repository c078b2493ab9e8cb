-- ===== src/Base.antt =====
-- The names that every module shares: the libraries', passed on, and those of the children, which
-- model the Python that the source is written in (tests, sequences, sets, sorting, text).
mod Tests
mod Lists
mod Equality
pub mod Sorting
pub mod Text
pub mod Pieces
pub mod Dict
pub mod TextOrder
pub mod Decimal
pub use Tests.*
pub use Lists.*
unfoldable pub use Equality.*
pub use Prim.Native.Nat.{ℕ, zero, suc, ◌+◌, ◌-◌, ◌*◌, ◌/◌, ◌%◌, ◌^◌, ◌≤◌, ◌<◌, min, max}
pub use Prim.Native.String.{String, ◌++◌ as ◌<>◌}
pub use mathlib.Core.Path.{◌≡◌, refl, sym, ap, ◌∙◌}
pub use mathlib.Core.Logic.{◌≢◌, ◌↔◌, ◌⊎◌, inl, inr}
pub use mathlib.Core.Bool.{Bool, true, false, not, ◌&&◌, ◌||◌}
pub use mathlib.Core.Option.{Option, none, some}
pub use mathlib.Core.List.{List, [], ◌∷◌, ◌++◌, map}
pub use native.Mathlib.Omega.{arith}
pub use text.Mathlib.TextEquality.{eq_iff}

-- Opening this opens what a test by evaluation computes with.
unfoldable pub library : Unit {0}
unfolding distinct Sorting.sort Text.split Text.join Text.replace Text.strip Text.words Text.every
    Text.strip_prefix Text.ends_longer Text.cut Text.text_length Dict.lookup Dict.put
    Decimal.decimal Decimal.positive_in
library = tt
