-- ===== src/Base/TextOrder.antt =====
-- The order of texts by code points is total and transitive.
use Prim.Native.Nat.{Ordering}
use text.Mathlib.TextEquality.{path_by_compare}
use Prim.Native.String.{String, compare}
use Prim.Native.String.compare as order
use mathlib.Core.Path.{◌≡◌, refl}
use mathlib.Core.Bool.{true, false}
use native.Mathlib.Omega.{arith}
use github.Base.Sorting.{str_leb}

pub str_leb_total : (s t : String) → str_leb s t ≡ false → str_leb t s ≡ true
str_leb_total String.[] String.[] h = refl
str_leb_total String.[] (String.◌∷◌ d t) h = ground (arith, order.nil-cons d t)
str_leb_total (String.◌∷◌ c s) String.[] h = ground (arith, order.nil-cons c s)
str_leb_total (String.◌∷◌ c s) (String.◌∷◌ d t) h =
    ground (arith, order.cons-cons c d s t, order.cons-cons d c t s, str_leb_total s t)

pub str_leb_trans : (s t u : String) → str_leb s t ≡ true → str_leb t u ≡ true → str_leb s u ≡ true
str_leb_trans String.[] t String.[] h k = refl
str_leb_trans String.[] t (String.◌∷◌ e u) h k = ground (arith, order.nil-cons e u)
str_leb_trans (String.◌∷◌ c s) String.[] u h k = absurd (ground (arith, order.cons-nil c s))
str_leb_trans (String.◌∷◌ c s) (String.◌∷◌ d t) String.[] h k =
    absurd (ground (arith, order.cons-nil d t))
str_leb_trans (String.◌∷◌ c s) (String.◌∷◌ d t) (String.◌∷◌ e u) h k = ground (
  arith,
  order.cons-cons c d s t,
  order.cons-cons d e t u,
  order.cons-cons c e s u,
  str_leb_trans s t u,
)

compare-eq : (s t : String) → str_leb s t ≡ true → str_leb t s ≡ true → compare s t ≡ Ordering.eq
compare-eq String.[] String.[] h k = refl
compare-eq String.[] (String.◌∷◌ d t) h k = absurd (ground (arith, order.cons-nil d t))
compare-eq (String.◌∷◌ c s) String.[] h k = absurd (ground (arith, order.cons-nil c s))
compare-eq (String.◌∷◌ c s) (String.◌∷◌ d t) h k =
    ground (arith, order.cons-cons c d s t, order.cons-cons d c t s, compare-eq s t)

pub str_leb_antisymm : (s t : String) → str_leb s t ≡ true → str_leb t s ≡ true → s ≡ t
str_leb_antisymm s t h k = path_by_compare s t (compare-eq s t h k)
