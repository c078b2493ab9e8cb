-- ===== src/Base/Pieces.antt =====
-- Slices of sequences, and their pieces.
use Prim.Native.Nat.{ℕ, zero, suc, ◌+◌, ◌-◌, ◌≤◌}
use mathlib.Core.Path.{◌≡◌, refl, sym, ap, ◌∙◌}
use mathlib.Core.List.{List, [], ◌∷◌, ◌++◌}
use native.Mathlib.Omega.{arith}
use github.Base.Lists.{length, take}

-- `l[n:]`
unfoldable pub drop {ℓ} : {A : Type ℓ} → ℕ → List A → List A
drop zero l = l
drop (suc n) [] = []
drop (suc n) (x ∷ l) = drop n l

module _ {ℓ} {A : Type ℓ} where
  pub take-drop : (n : ℕ) (l : List A) → take n l ++ drop n l ≡ l
  unfolding drop
  take-drop zero l = refl
  take-drop (suc n) [] = refl
  take-drop (suc n) (x ∷ l) = ap (◌∷◌ x) (take-drop n l)

  pub length-drop : (n : ℕ) (l : List A) → length (drop n l) ≡ length l - n
  unfolding drop
  length-drop zero l = omega arith
  length-drop (suc n) [] = omega arith
  length-drop (suc n) (x ∷ l) = omega (arith, length-drop n l)

  drop-nil : (n : ℕ) → drop {A = A} n [] ≡ []
  unfolding drop
  drop-nil zero = refl
  drop-nil (suc n) = refl

  pub drop-drop : (m n : ℕ) (l : List A) → drop m (drop n l) ≡ drop (n + m) l
  unfolding drop
  drop-drop m zero l = ap (λ k. drop k l) (omega arith)
  drop-drop m (suc n) [] = drop-nil m ∙ sym (drop-nil (suc n + m))
  drop-drop m (suc n) (x ∷ l) =
      drop-drop m n l
      ∙ ap (λ k. drop k (x ∷ l)) (let e : suc (n + m) ≡ suc n + m = omega arith in e)

  pub nil_of_length : (l : List A) → length l ≡ 0 → l ≡ []
  nil_of_length [] h = refl
  nil_of_length (x ∷ l) h = absurd (omega arith)

-- The items of all the pieces, in order.
abbrev pub concat {ℓ} : {A : Type ℓ} → List (List A) → List A
concat [] = []
concat (piece ∷ pieces) = piece ++ concat pieces

-- The pieces of `size` items that reads of that size give until nothing is left; `fuel` is at most
-- the number of reads.
unfoldable pub chunks {ℓ} : {A : Type ℓ} → ℕ → ℕ → List A → List (List A)
unfolding drop
chunks size zero l = []
chunks size (suc fuel) [] = []
chunks size (suc fuel) (x ∷ xs) = take size (x ∷ xs) ∷ chunks size fuel (drop size (x ∷ xs))

unfoldable pub read_all {ℓ} : {A : Type ℓ} → ℕ → List A → List (List A)
unfolding chunks
read_all size l = chunks size (length l) l

module _ {ℓ} {A : Type ℓ} (k : ℕ) where
  concat-chunks : (fuel : ℕ) (l : List A) → length l ≤ fuel → concat (chunks (suc k) fuel l) ≡ l
  unfolding chunks
  concat-chunks zero l h = sym (nil_of_length l (omega arith))
  concat-chunks (suc fuel) [] h = refl
  concat-chunks (suc fuel) (x ∷ xs) h =
      ap (λ rest. take (suc k) (x ∷ xs) ++ rest)
        (concat-chunks fuel (drop (suc k) (x ∷ xs)) (omega (arith, length-drop (suc k) (x ∷ xs))))
      ∙ take-drop (suc k) (x ∷ xs)

  -- Reading in pieces of one item or more loses nothing.
  pub concat-read_all : (l : List A) → concat (read_all (suc k) l) ≡ l
  unfolding read_all
  concat-read_all l = concat-chunks (length l) l (omega arith)
