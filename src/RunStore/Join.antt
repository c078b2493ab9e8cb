-- ===== src/RunStore/Join.antt =====
-- What join checks of the parts.
use github.Base.{
  ℕ, zero, suc, ◌+◌, ◌≤◌, ◌≡◌, refl, ap, sym, ◌∙◌, inl, inr, false, ◌||◌, Option, none, some,
}
use github.Base.{
  List, [], ◌∷◌, ◌++◌, arith, length, length-append, All, Bool-cases, ltb, string_eq, nat_eq,
}
use mathlib.Core.Option.{some-injective}
use mathlib.Core.List.{append-nil, append_assoc}
use github.Base.Pieces.{concat, read_all, concat-read_all}
use github.RunStore.Parts.{Joined, join_chunks, join_part, go_on, join_parts}

module _ (part_bytes declared : ℕ) where
  -- Pieces within both limits are joined.
  join_chunks-fits :
      (pieces : List (List ℕ)) (part_size size : ℕ) (written : List ℕ)
      → part_size + length (concat pieces) ≤ part_bytes
      → size + length (concat pieces) ≤ declared
      → join_chunks part_bytes declared pieces part_size size written
        ≡ some (size + length (concat pieces), written ++ concat pieces)
  unfolding join_chunks
  join_chunks-fits [] part_size size written p s =
      let same : size ≡ size + 0 = omega arith in
      ap some (ap (λ n. (n, written)) same ∙ ap (λ l. (size + 0, l)) (sym (append-nil written)))
  join_chunks-fits (piece ∷ pieces) part_size size written p s =
      let both = length-append piece (concat pieces) in
      let within : (ltb part_bytes (part_size + length piece) || ltb declared (size + length piece))
          ≡ false =
        ground arith in
      let more : size + length piece + length (concat pieces)
          ≡ size + length (piece ++ concat pieces) =
        omega (arith, both) in
      rw within (
        join_chunks-fits pieces (part_size + length piece) (size + length piece) (written ++ piece)
          (omega (arith, both)) (omega (arith, both))
        ∙ ap (λ n. some (n, (written ++ piece) ++ concat pieces)) more
        ∙ ap (λ l. some (size + length (piece ++ concat pieces), l))
            (append_assoc written piece (concat pieces)))

  -- Pieces that are joined are within the limit of a part.
  join_chunks-joined :
      (pieces : List (List ℕ)) (part_size size : ℕ) (written : List ℕ) (after : Joined)
      → part_size ≤ part_bytes
      → join_chunks part_bytes declared pieces part_size size written ≡ some after
      → (after ≡ (size + length (concat pieces), written ++ concat pieces))
        × (part_size + length (concat pieces) ≤ part_bytes)
  unfolding join_chunks
  join_chunks-joined [] part_size size written after p e =
      let same : size ≡ size + 0 = omega arith in
      (
        sym (some-injective _ _ e)
            ∙ ap (λ n. (n, written)) same
            ∙ ap (λ l. (size + 0, l)) (sym (append-nil written)),
        omega arith,
      )
  join_chunks-joined (piece ∷ pieces) part_size size written after p e =
      let both = length-append piece (concat pieces) in
      elim (Bool-cases
        (ltb part_bytes (part_size + length piece) || ltb declared (size + length piece))) [
          | inl over ↦ absurd (nothing after (rw over at e))
          | inr within ↦
              let (f, q) =
                join_chunks-joined pieces (part_size + length piece) (size + length piece)
                  (written ++ piece) after (ground arith) (rw within at e) in
              let more : size + length piece + length (concat pieces)
                  ≡ size + length (piece ++ concat pieces) =
                omega (arith, both) in
              (
                f
                    ∙ ap (λ n. (n, (written ++ piece) ++ concat pieces)) more
                    ∙ ap (λ l. (size + length (piece ++ concat pieces), l))
                        (append_assoc written piece (concat pieces)),
                omega (arith, both),
              )
        ]
    where
      nothing : (after : Joined) → none ≡ some after → ⊥
      nothing after h = cc

-- The files from an index on have these contents.
abbrev pub Holds : (ℕ → Option (List ℕ)) → ℕ → List (List ℕ) → Type 0
Holds files index [] = Unit
Holds files index (part ∷ parts) = (files index ≡ some part) × Holds files (index + 1) parts

abbrev pub AreShort : ℕ → List (List ℕ) → Type 0
AreShort part_bytes parts = All (λ part. length part ≤ part_bytes) parts

-- What is written after these parts.
abbrev pub joined_with : Joined → List (List ℕ) → Joined
joined_with joined parts = (joined.0 + length (concat parts), joined.1 ++ concat parts)

module _ (files : ℕ → Option (List ℕ)) (part_bytes declared : ℕ) where
  joined_with-cons :
      (joined : Joined) (part : List ℕ) (parts : List (List ℕ))
      → joined_with (joined.0 + length part, joined.1 ++ part) parts
        ≡ joined_with joined (part ∷ parts)
  joined_with-cons joined part parts =
      let more : joined.0 + length part + length (concat parts)
          ≡ joined.0 + length (part ++ concat parts) =
        omega (arith, length-append part (concat parts)) in
      ap (λ n. (n, (joined.1 ++ part) ++ concat parts)) more
      ∙ ap (λ l. (joined.0 + length (part ++ concat parts), l))
          (append_assoc joined.1 part (concat parts))

  part_of : (part : List ℕ) → concat (read_all 1048576 part) ≡ part
  part_of part = concat-read_all 1048575 part

  join_part-fits :
      (part : List ℕ) (joined : Joined)
      → length part ≤ part_bytes
      → joined.0 + length part ≤ declared
      → join_part part_bytes declared (some part) joined
        ≡ some (joined.0 + length part, joined.1 ++ part)
  unfolding join_part
  join_part-fits part (size, written) p s =
      let whole = part_of part in
      let n = ap length whole in
      join_chunks-fits part_bytes declared (read_all 1048576 part) 0 size written (omega (arith, n))
        (omega (arith, n))
      ∙ ap (λ l. some (size + length l, written ++ l)) whole

  join_part-joined :
      (file : Option (List ℕ)) (joined after : Joined)
      → join_part part_bytes declared file joined ≡ some after
      → (part : List ℕ) × (file ≡ some part)
        × (length part ≤ part_bytes)
        × (after ≡ (joined.0 + length part, joined.1 ++ part))
  unfolding join_part
  join_part-joined none joined after e = cc
  join_part-joined (some part) (size, written) after e =
      let whole = part_of part in
      let (f, short) =
        join_chunks-joined part_bytes declared (read_all 1048576 part) 0 size written after
          (omega arith) e in
      (
        part,
        refl,
        omega (arith, ap length whole),
        f ∙ ap (λ l. (size + length l, written ++ l)) whole,
      )

  pub join_parts-fits :
      (parts : List (List ℕ)) (index : ℕ) (joined : Joined)
      → Holds files index parts
      → AreShort part_bytes parts
      → joined.0 + length (concat parts) ≤ declared
      → join_parts files part_bytes declared (length parts) index joined
        ≡ some (joined_with joined parts)
  unfolding join_parts
  join_parts-fits [] index (size, written) h k s =
      let same : size ≡ size + 0 = omega arith in
      ap (λ n. some (n, written)) same ∙ ap (λ l. some (size + 0, l)) (sym (append-nil written))
  join_parts-fits (part ∷ parts) index joined (h, hs) (k, ks) s =
      let both = length-append part (concat parts) in
      let fits = join_part-fits part joined k (omega (arith, both)) in
      ap
        (λ file.
          go_on (join_part part_bytes declared file joined)
            (join_parts files part_bytes declared (length parts) (index + 1)))
        h
      ∙ ap
          (λ result. go_on result (join_parts files part_bytes declared (length parts) (index + 1)))
          fits
      ∙ (join_parts-fits parts (index + 1) (joined.0 + length part, joined.1 ++ part) hs ks
            (omega (arith, both))
          ∙ ap some (joined_with-cons joined part parts))

  pub join_parts-joined :
      (left index : ℕ) (joined after : Joined)
      → join_parts files part_bytes declared left index joined ≡ some after
      → (parts : List (List ℕ)) × (length parts ≡ left)
        × Holds files index parts
        × AreShort part_bytes parts
        × (after ≡ joined_with joined parts)
  unfolding join_parts
  join_parts-joined zero index (size, written) after e =
      let same : size ≡ size + 0 = omega arith in
      (
        [],
        refl,
        tt,
        tt,
        sym (some-injective _ _ e)
            ∙ ap (λ n. (n, written)) same
            ∙ ap (λ l. (size + 0, l)) (sym (append-nil written)),
      )
  join_parts-joined (suc left) index joined after e =
      by_part (join_part part_bytes declared (files index) joined) refl e
        (λ a f. join_parts-joined left (index + 1) a after f)
    where
      nothing : ◌≡◌ {A = Option Joined} none (some after) → ⊥
      nothing h = cc

      by_part :
          (result : Option Joined)
          → join_part part_bytes declared (files index) joined ≡ result
          → go_on result (join_parts files part_bytes declared left (index + 1)) ≡ some after
          → ((a : Joined)
              → join_parts files part_bytes declared left (index + 1) a ≡ some after
              → (parts : List (List ℕ)) × (length parts ≡ left)
                × Holds files (index + 1) parts
                × AreShort part_bytes parts
                × (after ≡ joined_with a parts))
          → (parts : List (List ℕ)) × (length parts ≡ suc left)
            × Holds files index parts
            × AreShort part_bytes parts
            × (after ≡ joined_with joined parts)
      by_part none f g rest = absurd (nothing g)
      by_part (some a) f g rest =
          let (part, h, short, k) = join_part-joined (files index) joined a f in
          let (parts, n, hs, ks, last) = rest a g in
          (
            part ∷ parts,
            ap suc n,
            (h, hs),
            (short, ks),
            last ∙ ap (λ j. joined_with j parts) k ∙ joined_with-cons joined part parts,
          )
