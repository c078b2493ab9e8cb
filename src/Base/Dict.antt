-- ===== src/Base/Dict.antt =====
-- Python's `dict`, as the list of its items in order of insertion.
use mathlib.Core.Path.{◌≡◌, refl, ap}
use mathlib.Core.Logic.{inl, inr}
use mathlib.Core.Option.{Option, none, some}
use mathlib.Core.List.{List, [], ◌∷◌, map}
use native.Mathlib.Omega.{arith}
use github.Base.Tests.{Bool-cases, if◌then◌else◌}
use github.Base.Equality.{Eq, ◌==◌}

abbrev pub Dict {ℓ κ} : Type ℓ → Type κ → Type (ℓ ⊔ κ)
Dict K V = List (K × V)

module _ {ℓ κ} {K : Type ℓ} {V : Type κ} ⦃e : Eq K⦄ where
  -- `d.get(key)`
  unfoldable pub lookup : Dict K V → K → Option V
  lookup [] key = none
  lookup ((k, v) ∷ d) key = let rest = lookup d key in if k == key then some v else rest

  -- `d[key] = value`
  unfoldable pub put : Dict K V → K → V → Dict K V
  put [] key value = (key, value) ∷ []
  put ((k, v) ∷ d) key value =
      let rest = put d key value in if k == key then (k, value) ∷ d else (k, v) ∷ rest

  pub lookup-put :
      (d : Dict K V) (k j : K) (v : V)
      → lookup (put d k v) j ≡ (if k == j then some v else lookup d j)
  unfolding lookup put
  lookup-put [] k j v = refl
  lookup-put ((i, w) ∷ d) k j v =
      ground (arith, e.is_same_iff k j, e.is_same_iff i k, e.is_same_iff i j, lookup-put d k j v)

-- A dictionary of the same keys.
pub lookup-map {ℓ κ μ} :
    {K : Type ℓ} {V : Type κ} {W : Type μ} ⦃e : Eq K⦄ (f : K → V → W) (d : Dict K V) (key : K)
    → lookup (map (λ (k, v). (k, f k v)) d) key
      ≡ elim (lookup d key) [ none ↦ none | some v ↦ some (f key v) ]
unfolding lookup
lookup-map f [] key = refl
lookup-map ⦃e⦄ f ((k, v) ∷ d) key = elim (Bool-cases (k == key)) [
  | inr other ↦ rw other (lookup-map f d key)
  | inl same ↦ rw same (ap (λ j. some (f j v)) ((e.is_same_iff k key).0 same))
]

pub lookup-nil {ℓ κ} : {K : Type ℓ} {V : Type κ} ⦃e : Eq K⦄ (k : K) → lookup {V = V} [] k ≡ none
unfolding lookup
lookup-nil k = refl
