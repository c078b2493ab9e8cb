-- ===== src/RunStore/Tests.antt =====
-- Runs of the parts of a bundle, and their theorems at concrete data.
use github.Base.{
  ℕ, zero, suc, ◌≤◌, String, ◌≡◌, refl, ◌↔◌, true, Option, some, none, List, [], ◌∷◌, arith, length,
}
use github.Base.Pieces.{read_all, drop}
use github.Json.{Value, find, entries}
use github.RunStore.Parts.{
  Manifest, manifest, found, Store, store_of, split, join, is_hex, valid_limits, most_parts,
}
use github.RunStore.Integrity.{Checked, join-Checked}
use github.RunStore.RoundTrip.{split-some_iff, split-join}

-- A digest of the right form, and a length of a manifest's text.
abbrev zeros : String
zeros = "0000000000000000000000000000000000000000000000000000000000000000"

abbrev digest : List ℕ → String
digest body = zeros

abbrev encoded : Value → ℕ
encoded value = 120

abbrev body : List ℕ
body = 10 ∷ 20 ∷ 30 ∷ 40 ∷ 50 ∷ []

-- The body in parts of two bytes.
abbrev store : Store
store = store_of digest encoded body "" ((10 ∷ 20 ∷ []) ∷ (30 ∷ 40 ∷ []) ∷ (50 ∷ []) ∷ [])

abbrev files : ℕ → Option (List ℕ)
files zero = some (10 ∷ 20 ∷ [])
files (suc zero) = some (30 ∷ 40 ∷ [])
files (suc (suc zero)) = some (50 ∷ [])
files _ = none

split_test : split digest encoded "" 100 2 body ≡ some store
unfolding split read_all drop
split_test = refl

join_test : join digest "" 100 2 store.manifest files ≡ some body
unfolding join manifest read_all drop find entries is_hex
join_test = refl

-- A part that is longer than the limit is refused.
long_test : join digest "" 100 1 store.manifest files ≡ none
unfolding join manifest read_all drop find entries is_hex
long_test = refl

is_hex-zeros : is_hex 64 zeros ≡ true
unfolding is_hex
is_hex-zeros = refl

split-some_iff_example : ((s : Store) × (split digest encoded "" 100 2 body ≡ some s)) ↔ (
    (valid_limits "" 100 2 ≡ true) × (length body ≤ 100) × (length (read_all 2 body) ≤ most_parts))
split-some_iff_example = split-some_iff digest encoded "" 100 2 body

split-join_example : join digest "" 100 2 store.manifest files ≡ some body
split-join_example =
    split-join digest encoded "" 100 2 body store files is_hex-zeros (omega arith) (omega arith)
      split_test (refl, (refl, (refl, tt)))

join-Checked_example :
    (value : Manifest) × (manifest store.manifest 100 2 ≡ found value)
    × Checked digest 2 files value body
join-Checked_example = join-Checked digest "" 100 2 store.manifest files body join_test
