-- ===== src/RunStore/RoundTrip.antt =====
-- What split leaves can be joined again.
use github.Base.{
  ℕ, zero, suc, ◌+◌, ◌*◌, ◌-◌, ◌≤◌, ◌<◌, ◌≡◌, ◌↔◌, refl, ap, sym, ◌∙◌, inl, inr, String, true,
  false, ◌||◌, Option, none, some,
}
use github.Base.{
  List, [], ◌∷◌, ◌++◌, arith, length, length-append, take-le, Bool-cases, ltb, leb, ltb→lt, ◌==◌,
  string_eq, nat_eq,
}
use github.Base.Pieces.{concat, chunks, read_all, concat-read_all, drop, length-drop, nil_of_length}
use mathlib.Core.Option.{some-injective, map as map_option}
use mathlib.Core.Path.{subst}
use native.Mathlib.Nat.{le-div_iff_mul-le}
use github.Base.{eqb, eq_iff}
use github.Base.Text.{is_blank}
use github.Json.{Value, obj}
use github.RunStore.Parts.{
  most_parts, parts_bound, is_hex, valid_limits, split_parts, Store, store_of, manifest_fields,
  write_manifest, split,
}
use github.RunStore.Parts.{join_found, join}
use github.RunStore.Join.{AreShort, Holds, join_parts-fits}
use github.RunStore.Written.{manifest-written}

-- The parts that are written are those that are read, within the limits.
split_parts-some :
    (maximum : ℕ) (pieces : List (List ℕ)) (size parts : ℕ) (written : List (List ℕ))
    → size ≤ maximum
    → parts ≤ most_parts
    → split_parts maximum pieces size parts ≡ some written
    → (written ≡ pieces)
      × (size + length (concat pieces) ≤ maximum)
      × (parts + length pieces ≤ most_parts)
unfolding split_parts
split_parts-some maximum [] size parts written s p e =
    (sym (some-injective _ _ e), omega arith, omega arith)
split_parts-some maximum (piece ∷ pieces) size parts written s p e =
    elim (Bool-cases (ltb maximum (size + length piece) || leb most_parts parts)) [
      | inl over ↦ absurd (nothing (rw over at e))
      | inr within ↦
          by_rest (split_parts maximum pieces (size + length piece) (parts + 1)) refl
            (rw within at e)
            (λ rest f.
              split_parts-some maximum pieces (size + length piece) (parts + 1) rest (ground arith)
                (ground arith) f)
    ]
  where
    nothing : ◌≡◌ {A = Option (List (List ℕ))} none (some written) → ⊥
    nothing g = cc

    by_rest :
        (rest : Option (List (List ℕ)))
        → split_parts maximum pieces (size + length piece) (parts + 1) ≡ rest
        → map_option (λ l. piece ∷ l) rest ≡ some written
        → ((others : List (List ℕ))
            → split_parts maximum pieces (size + length piece) (parts + 1) ≡ some others
            → (others ≡ pieces)
              × (size + length piece + length (concat pieces) ≤ maximum)
              × (parts + 1 + length pieces ≤ most_parts))
        → (written ≡ piece ∷ pieces)
          × (size + length (piece ++ concat pieces) ≤ maximum)
          × (parts + suc (length pieces) ≤ most_parts)
    by_rest none f g h = absurd (nothing g)
    by_rest (some others) f g h =
        let (same, small, few) = h others f in
        (
          sym (some-injective _ _ g) ∙ ap (λ l. piece ∷ l) same,
          omega (arith, length-append piece (concat pieces)),
          omega arith,
        )

-- Pieces within the limits are all written.
split_parts-fits :
    (maximum : ℕ) (pieces : List (List ℕ)) (size parts : ℕ)
    → size + length (concat pieces) ≤ maximum
    → parts + length pieces ≤ most_parts
    → split_parts maximum pieces size parts ≡ some pieces
unfolding split_parts
split_parts-fits maximum [] size parts s p = refl
split_parts-fits maximum (piece ∷ pieces) size parts s p =
    let both = length-append piece (concat pieces) in
    let within : (ltb maximum (size + length piece) || leb most_parts parts) ≡ false =
      ground arith in
    let rest =
      split_parts-fits maximum pieces (size + length piece) (parts + 1) (omega (arith, both))
        (omega arith) in
    rw (within, rest) refl

chunks-nil : (k fuel : ℕ) → chunks {A = ℕ} (suc k) fuel [] ≡ []
unfolding chunks
chunks-nil k zero = refl
chunks-nil k (suc fuel) = refl

module _ (k : ℕ) where
  -- Each piece is at most as long as a read.
  chunks-short : (fuel : ℕ) (l : List ℕ) → AreShort (suc k) (chunks (suc k) fuel l)
  unfolding chunks
  chunks-short zero l = tt
  chunks-short (suc fuel) [] = tt
  chunks-short (suc fuel) (x ∷ xs) =
      (take-le (suc k) (x ∷ xs), chunks-short fuel (drop (suc k) (x ∷ xs)))

  -- There are no more pieces than the length over their size, rounded up.
  chunks-few : (fuel : ℕ) (l : List ℕ) → length (chunks (suc k) fuel l) * suc k ≤ length l + k
  unfolding chunks
  chunks-few zero l = omega arith
  chunks-few (suc fuel) [] = omega arith
  chunks-few (suc fuel) (x ∷ xs) =
      let rest = chunks-few fuel (drop (suc k) (x ∷ xs)) in
      let left = length-drop (suc k) (x ∷ xs) in
      elim (Bool-cases (ltb (length xs) (suc k))) [
        | inr long ↦ add_one _ (length xs) (omega (arith, rest, left, long_enough long))
        | inl brief ↦
            let nothing : drop (suc k) (x ∷ xs) ≡ [] =
              nil_of_length _ (omega (arith, left, ltb→lt _ _ brief)) in
            add_one _ (length xs) (rw (nothing, chunks-nil k fuel) (omega arith))
      ]
    where
      add_one : (n m : ℕ) → n * suc k ≤ m → suc n * suc k ≤ suc m + k
      add_one n m h = omega (arith, h)

      long_enough : ltb (length xs) (suc k) ≡ false → k ≤ length xs
      long_enough h = ground arith

-- With a size of a part that is not zero, what was read is the body, in few and short parts.
read_all-AreShort : (size : ℕ) (body : List ℕ) → 0 < size → AreShort size (read_all size body)
unfolding read_all
read_all-AreShort zero body h = absurd (omega arith)
read_all-AreShort (suc k) body h = chunks-short k (length body) body

concat-read : (size : ℕ) (body : List ℕ) → 0 < size → concat (read_all size body) ≡ body
concat-read zero body h = absurd (omega arith)
concat-read (suc k) body h = concat-read_all k body

read_all-few :
    (size : ℕ) (body : List ℕ)
    → 0 < size
    → length (read_all size body) * size ≤ length body + (size - 1)
unfolding read_all
read_all-few zero body h = absurd (omega arith)
read_all-few (suc k) body h =
    let less : suc k - 1 ≡ k = omega arith in rw less (chunks-few k (length body) body)

-- A body that is not empty has a part.
some_part :
    (size : ℕ) (body : List ℕ)
    → concat (read_all size body) ≡ body
    → 0 < length body
    → 0 < length (read_all size body)
some_part size body e h = by_parts (read_all size body) e
  where
    by_parts : (parts : List (List ℕ)) → concat parts ≡ body → 0 < length parts
    by_parts [] f = absurd (omega (arith, ap length f))
    by_parts (part ∷ parts) f = omega arith

-- The parts are no more than manifest accepts.
within :
    (maximum size : ℕ) (body : List ℕ)
    → 0 < size
    → length body ≤ maximum
    → length (read_all size body) ≤ most_parts
    → length (read_all size body) ≤ parts_bound maximum size
within maximum size body positive small few =
    let room =
      le-div_iff_mul-le {x = length (read_all size body)} {y = maximum + size - 1} positive in
    let fits = room.1 (omega (arith, read_all-few size body positive)) in omega (arith, fits)

module _ (digest : List ℕ → String) (encoded : Value → ℕ) where
  split-store :
      (generation : String) (maximum part_bytes : ℕ) (body : List ℕ) (store : Store)
      → split digest encoded generation maximum part_bytes body ≡ some store
      → (valid_limits generation maximum part_bytes ≡ true)
        × (store ≡ store_of digest encoded body generation (read_all part_bytes body))
        × (length (concat (read_all part_bytes body)) ≤ maximum)
        × (length (read_all part_bytes body) ≤ most_parts)
  unfolding split
  split-store generation maximum part_bytes body store e =
      elim (Bool-cases (valid_limits generation maximum part_bytes)) [
        | inr wrong ↦ absurd (nothing (rw wrong at e))
        | inl right ↦
            by_parts (split_parts maximum (read_all part_bytes body) 0 0) refl (rw right at e) right
      ]
    where
      nothing : ◌≡◌ {A = Option Store} none (some store) → ⊥
      nothing g = cc

      by_parts :
          (parts : Option (List (List ℕ)))
          → split_parts maximum (read_all part_bytes body) 0 0 ≡ parts
          → map_option (store_of digest encoded body generation) parts ≡ some store
          → valid_limits generation maximum part_bytes ≡ true
          → (valid_limits generation maximum part_bytes ≡ true)
            × (store ≡ store_of digest encoded body generation (read_all part_bytes body))
            × (length (concat (read_all part_bytes body)) ≤ maximum)
            × (length (read_all part_bytes body) ≤ most_parts)
      by_parts none f g right = absurd (nothing g)
      by_parts (some parts) f g right =
          let (same, small, few) =
            split_parts-some maximum (read_all part_bytes body) 0 0 parts (omega arith)
              (omega arith) f in
          (
            right,
            sym (some-injective _ _ g) ∙ ap (store_of digest encoded body generation) same,
            omega arith,
            omega arith,
          )

  -- Split succeeds exactly where its arguments are valid and the body is within the limits of size
  -- and of the number of parts.
  pub split-some_iff :
      (generation : String) (maximum part_bytes : ℕ) (body : List ℕ)
      → ((store : Store) × (split digest encoded generation maximum part_bytes body ≡ some store))
        ↔ ((valid_limits generation maximum part_bytes ≡ true)
            × (length body ≤ maximum)
            × (length (read_all part_bytes body) ≤ most_parts))
  unfolding split
  split-some_iff generation maximum part_bytes body = (
    λ (store, e).
        let (right, same, small, few) = split-store generation maximum part_bytes body store e in
        let positive : 0 < part_bytes = ground arith in
        (right, omega (arith, ap length (concat-read part_bytes body positive)), few),
    λ (right, small, few).
        let positive : 0 < part_bytes = ground arith in
        let fits =
          split_parts-fits maximum (read_all part_bytes body) 0 0
            (omega (arith, ap length (concat-read part_bytes body positive))) (omega arith) in
        (store_of digest encoded body generation (read_all part_bytes body), rw (right, fits) refl),
  )

  rejoin :
      (generation : String) (maximum part_bytes : ℕ) (body : List ℕ) (files : ℕ → Option (List ℕ))
      → is_hex 64 (digest body) ≡ true
      → valid_limits generation maximum part_bytes ≡ true
      → length (concat (read_all part_bytes body)) ≤ maximum
      → length (read_all part_bytes body) ≤ most_parts
      → 0 < length body
      → encoded
          (obj (manifest_fields digest encoded (length (read_all part_bytes body)) body generation))
        < 4096
      → Holds files 0 (read_all part_bytes body)
      → join digest generation maximum part_bytes
          (write_manifest digest encoded (length (read_all part_bytes body)) body generation)
          files
        ≡ some body
  unfolding join join_found
  rejoin generation maximum part_bytes body files hex right small few nonempty compact holds =
      let positive : 0 < part_bytes = ground arith in
      let whole = concat-read part_bytes body positive in
      let fine : (is_blank generation || is_hex 32 generation) ≡ true = ground arith in
      let read =
        manifest-written digest encoded maximum part_bytes (length (read_all part_bytes body)) body
          (some_part part_bytes body whole nonempty)
          (within maximum part_bytes body positive (omega (arith, ap length whole)) few) nonempty
          (omega (arith, ap length whole)) hex generation fine compact in
      let joined =
        join_parts-fits files part_bytes (length body) (read_all part_bytes body) 0 (0, []) holds
          (read_all-AreShort part_bytes body positive) (omega (arith, ap length whole)) in
      let counted : eqb (0 + length (concat (read_all part_bytes body))) (length body) ≡ true =
        ground (arith, ap length whole) in
      let content : (digest (concat (read_all part_bytes body)) == digest body) ≡ true =
        (eq_iff _ _).1 (ap digest whole) in
      rw (right, read, joined, counted, content) (ap some whole)

  -- What split leaves of a body that is not empty joins to that body, under the same arguments, from
  -- any directory that holds the parts. Of the digest, it is known that it writes 64 hexadecimal
  -- digits, and of the manifest's text, that it is shorter than 4096 bytes.
  pub split-join :
      (generation : String) (maximum part_bytes : ℕ) (body : List ℕ) (store : Store)
      (files : ℕ → Option (List ℕ))
      → is_hex 64 (digest body) ≡ true
      → encoded (obj (manifest_fields digest encoded (length store.parts) body generation)) < 4096
      → 0 < length body
      → split digest encoded generation maximum part_bytes body ≡ some store
      → Holds files 0 store.parts
      → join digest generation maximum part_bytes store.manifest files ≡ some body
  split-join generation maximum part_bytes body store files hex compact nonempty e holds =
      let (right, same, small, few) = split-store generation maximum part_bytes body store e in
      subst (λ s. join digest generation maximum part_bytes s.manifest files ≡ some body) (sym same)
        (rejoin generation maximum part_bytes body files hex right small few nonempty
          (subst
            (λ s.
              encoded (obj (manifest_fields digest encoded (length s.parts) body generation))
              < 4096)
            same compact)
          (subst (λ s. Holds files 0 s.parts) same holds))
