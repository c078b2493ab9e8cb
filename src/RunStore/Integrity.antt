-- ===== src/RunStore/Integrity.antt =====
-- What a bundle that join gives is known to be.
use github.Base.{ℕ, ◌≡◌, refl, ap, inl, inr, String, ◌&&◌, Option, none, some}
use github.Base.{List, [], arith, length, Bool-cases, ◌==◌, string_eq, nat_eq, eq_iff}
use github.Base.Pieces.{concat}
use mathlib.Core.Option.{some-injective}
use mathlib.Core.Path.{subst}
use github.RunStore.Parts.{
  Document, Manifest, Inspected, found, no_manifest, invalid, manifest, valid_limits,
}
use github.RunStore.Parts.{Joined, join_parts, check_joined, join_found, join}
use github.RunStore.Join.{Holds, AreShort, join_parts-joined}

module _ (digest : List ℕ → String) where
  -- A bundle that the manifest and the files make up.
  abbrev pub Checked : ℕ → (ℕ → Option (List ℕ)) → Manifest → List ℕ → Type 0
  Checked part_bytes files value bundle =
      (parts : List (List ℕ)) × (length parts ≡ value.parts)
      × Holds files 0 parts
      × AreShort part_bytes parts
      × (bundle ≡ concat parts)
      × (length bundle ≡ value.size)
      × (digest bundle ≡ value.sha256)

  check_joined-Checked :
      (part_bytes : ℕ) (files : ℕ → Option (List ℕ)) (value : Manifest) (result : Option Joined)
      (bundle : List ℕ)
      → join_parts files part_bytes value.size value.parts 0 (0, []) ≡ result
      → check_joined digest value result ≡ some bundle
      → Checked part_bytes files value bundle
  check_joined-Checked part_bytes files value none bundle e h = cc
  check_joined-Checked part_bytes files value (some (size, written)) bundle e h =
      let (parts, n, holds, short, last) =
        join_parts-joined files part_bytes value.size value.parts 0 (0, []) (size, written) e in
      elim (Bool-cases (size == value.size && digest written == value.sha256)) [
        | inr wrong ↦ absurd (nothing (rw wrong at h))
        | inl right ↦
            let same : written ≡ bundle = some-injective _ _ (rw right at h) in
            let counted = ap (λ j. j.0) last in
            let content = ap (λ j. j.1) last in
            subst (Checked part_bytes files value) same (
              parts,
              n,
              holds,
              short,
              content,
              ground (arith, counted, ap length content),
              (eq_iff (digest written) value.sha256).0 (ground arith),
            )
      ]
    where
      nothing : ◌≡◌ {A = Option (List ℕ)} none (some bundle) → ⊥
      nothing g = cc

  -- Where join gives a bundle, the manifest was valid within the limits, and the bundle is what its
  -- number of part files hold in order, each within the size of a part, with the size and the
  -- digest that the manifest declares.
  pub join-Checked :
      (generation : String) (maximum part_bytes : ℕ) (doc : Document) (files : ℕ → Option (List ℕ))
      (bundle : List ℕ)
      → join digest generation maximum part_bytes doc files ≡ some bundle
      → (value : Manifest) × (manifest doc maximum part_bytes ≡ found value)
        × Checked part_bytes files value bundle
  unfolding join
  join-Checked generation maximum part_bytes doc files bundle h =
      elim (Bool-cases (valid_limits generation maximum part_bytes)) [
        | inr wrong ↦ absurd (nothing (rw wrong at h))
        | inl right ↦ by_manifest (manifest doc maximum part_bytes) refl (rw right at h)
      ]
    where
      nothing : ◌≡◌ {A = Option (List ℕ)} none (some bundle) → ⊥
      nothing g = cc

      by_manifest :
          (read : Inspected)
          → manifest doc maximum part_bytes ≡ read
          → join_found digest part_bytes files read ≡ some bundle
          → (value : Manifest) × (manifest doc maximum part_bytes ≡ found value)
            × Checked part_bytes files value bundle
      by_manifest no_manifest e g = absurd (nothing g)
      by_manifest invalid e g = absurd (nothing g)
      by_manifest (found value) e g =
          (value, e, check_joined-Checked part_bytes files value _ bundle refl g)
