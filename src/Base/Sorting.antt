-- ===== src/Base/Sorting.antt =====
-- Python's `sorted`: a stable sort by a Boolean order, as insertion sort.
use Prim.Native.String.{String, compare}
use mathlib.Core.Path.{◌≡◌, refl, ◌∙◌}
use mathlib.Core.Logic.{◌≢◌, ◌↔◌, inl, inr}
use mathlib.Core.Bool.{Bool, true, false}
use mathlib.Core.List.{List, [], ◌∷◌, Memᴰ, Permᴰ}
use mathlib.Core.List.Permᴰ as PermD
use native.Mathlib.Omega.{arith}
use text.Mathlib.Text.{is_le}
use github.Base.Tests.{if◌then◌else◌, Bool-cases}
use github.Base.Lists.{All, All-of, All-at}

-- The order of texts, by code points.
abbrev pub str_leb : String → String → Bool
str_leb s t = is_le (compare s t)

module _ {ℓ} {A : Type ℓ} (le : A → A → Bool) where
  unfoldable pub insert : A → List A → List A
  insert x [] = x ∷ []
  insert x (y ∷ ys) = let rest = insert x ys in if le x y then x ∷ y ∷ ys else y ∷ rest

  unfoldable pub sort : List A → List A
  unfolding insert
  sort [] = []
  sort (x ∷ xs) = insert x (sort xs)

  -- All pairs in order.
  abbrev pub IsSorted : List A → Type 0
  IsSorted [] = Unit
  IsSorted (x ∷ xs) = All (λ y. le x y ≡ true) xs × IsSorted xs

  insert-perm : (x : A) (l : List A) → Permᴰ (insert x l) (x ∷ l)
  unfolding insert
  insert-perm x [] = PermD.refl (x ∷ [])
  insert-perm x (y ∷ ys) = elim (Bool-cases (le x y)) [
    | inl p ↦ rw (p, insert) (PermD.refl (x ∷ y ∷ ys))
    | inr p ↦
        rw (p, insert) (Permᴰ.trans (Permᴰ.cons refl (insert-perm x ys)) (Permᴰ.swap refl refl))
  ]

  pub insert-ne-nil : (x : A) (l : List A) → insert x l ≢ []
  unfolding insert
  insert-ne-nil x [] h = cc
  insert-ne-nil x (y ∷ ys) h = ground arith

  -- Sorting rearranges.
  pub sort-perm : (l : List A) → Permᴰ (sort l) l
  unfolding sort
  sort-perm [] = Permᴰ.nil
  sort-perm (x ∷ xs) = Permᴰ.trans (insert-perm x (sort xs)) (Permᴰ.cons refl (sort-perm xs))

module _ {ℓ} {A : Type ℓ} where
  pub Memᴰ-perm : {a : A} {l m : List A} → Permᴰ l m → Memᴰ a l → Memᴰ a m
  Memᴰ-perm Permᴰ.nil n = elim n [ ]
  Memᴰ-perm (Permᴰ.cons e p) (Memᴰ.head h) = Memᴰ.head (h ∙ e)
  Memᴰ-perm (Permᴰ.cons e p) (Memᴰ.tail n) = Memᴰ.tail (Memᴰ-perm p n)
  Memᴰ-perm (Permᴰ.swap e f) (Memᴰ.head h) = Memᴰ.tail (Memᴰ.head (h ∙ e))
  Memᴰ-perm (Permᴰ.swap e f) (Memᴰ.tail (Memᴰ.head h)) = Memᴰ.head (h ∙ f)
  Memᴰ-perm (Permᴰ.swap e f) (Memᴰ.tail (Memᴰ.tail n)) = Memᴰ.tail (Memᴰ.tail n)
  Memᴰ-perm (Permᴰ.trans p q) n = Memᴰ-perm q (Memᴰ-perm p n)

  module _ (le : A → A → Bool) where
    pub Memᴰ-sort_iff : (a : A) (l : List A) → Memᴰ a (sort le l) ↔ Memᴰ a l
    Memᴰ-sort_iff a l = (Memᴰ-perm (sort-perm le l), Memᴰ-perm (PermD.symm (sort-perm le l)))

    pub All-sort {κ} : (P : A → Type κ) (l : List A) → All P (sort le l) ↔ All P l
    All-sort P l = (
      λ h. All-of P l (λ a m. All-at P h ((Memᴰ-sort_iff a l).1 m)),
      λ h. All-of P (sort le l) (λ a m. All-at P h ((Memᴰ-sort_iff a l).0 m)),
    )

    module _ (total : (a b : A) → le a b ≡ false → le b a ≡ true)
        (trans : (a b c : A) → le a b ≡ true → le b c ≡ true → le a c ≡ true) where
      All-trans :
          (x y : A) (l : List A)
          → le x y ≡ true
          → All (λ z. le y z ≡ true) l
          → All (λ z. le x z ≡ true) l
      All-trans x y [] h k = tt
      All-trans x y (z ∷ zs) h k = (trans x y z h k.0, All-trans x y zs h k.1)

      insert-IsSorted : (x : A) (l : List A) → IsSorted le l → IsSorted le (insert le x l)
      unfolding insert
      insert-IsSorted x [] s = (tt, tt)
      insert-IsSorted x (y ∷ ys) s = elim (Bool-cases (le x y)) [
        | inl p ↦ rw (p, insert) ((p, All-trans x y ys p s.0), s)
        | inr p ↦
            rw (p, insert)
              (
                All-of (λ z. le y z ≡ true) (insert le x ys)
                    (λ a m.
                      All-at (λ z. le y z ≡ true) {l = x ∷ ys} (total x y p, s.0)
                        (Memᴰ-perm (insert-perm le x ys) m)),
                insert-IsSorted x ys s.1,
              )
      ]

      -- The result is in order.
      pub sort-IsSorted : (l : List A) → IsSorted le (sort le l)
      unfolding sort
      sort-IsSorted [] = tt
      sort-IsSorted (x ∷ xs) = insert-IsSorted x (sort le xs) (sort-IsSorted xs)

pub sort-empty {ℓ} : {A : Type ℓ} (le : A → A → Bool) (l : List A) → (sort le l ≡ []) ↔ (l ≡ [])
unfolding sort
sort-empty le [] = (λ h. refl, λ h. refl)
sort-empty le (x ∷ xs) = (λ h. absurd (insert-ne-nil le x (sort le xs) h), λ h. cc)
