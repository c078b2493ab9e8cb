-- ===== src/Base/Lists.antt =====
-- Sequences: lengths and slices by native numbers, comprehensions, and predicates on the items.
use Prim.Native.Nat.{ℕ, zero, suc, ◌+◌, ◌≤◌}
use mathlib.Core.Path.{◌≡◌, refl, sym, ap, ◌∙◌}
use mathlib.Core.Logic.{◌↔◌, inl, inr}
use mathlib.Core.Bool.{Bool, true, false, ◌&&◌, ◌||◌}
use mathlib.Core.Option.{Option, none, some}
use mathlib.Core.List.{List, [], ◌∷◌, ◌++◌, map, Memᴰ}
use native.Mathlib.Omega.{arith}
use github.Base.Tests.{Bool-cases, if◌then◌else◌}

module _ {ℓ} {A : Type ℓ} where
  abbrev pub length : List A → ℕ
  length [] = 0
  length (x ∷ xs) = suc (length xs)

  -- `l[:n]`
  abbrev pub take : ℕ → List A → List A
  take zero l = []
  take (suc n) [] = []
  take (suc n) (x ∷ xs) = x ∷ take n xs

  -- `[x for x in l if test(x)]`
  abbrev pub select : (A → Bool) → List A → List A
  select test [] = []
  select test (x ∷ xs) = let rest = select test xs in if test x then x ∷ rest else rest

  -- `any(test(x) for x in l)` and `all(…)`
  abbrev pub any : (A → Bool) → List A → Bool
  any test [] = false
  any test (x ∷ xs) = test x || any test xs

  abbrev pub all : (A → Bool) → List A → Bool
  all test [] = true
  all test (x ∷ xs) = test x && all test xs

  -- `next((x for x in l if test(x)), None)`
  abbrev pub first : (A → Bool) → List A → Option A
  first test [] = none
  first test (x ∷ xs) = let rest = first test xs in if test x then some x else rest

  abbrev pub is_empty : List A → Bool
  is_empty [] = true
  is_empty (x ∷ xs) = false

  -- A predicate of every item.
  abbrev pub All {κ} : (A → Type κ) → List A → Type κ
  All P [] = Unit
  All P (x ∷ xs) = P x × All P xs

module _ {ℓ κ} {A : Type ℓ} (P : A → Type κ) where
  pub All-append : (xs ys : List A) → All P xs → All P ys → All P (xs ++ ys)
  All-append [] ys h k = k
  All-append (x ∷ xs) ys h k = (h.0, All-append xs ys h.1 k)

  pub All-left : (xs ys : List A) → All P (xs ++ ys) → All P xs
  All-left [] ys h = tt
  All-left (x ∷ xs) ys h = (h.0, All-left xs ys h.1)

  pub All-right : (xs ys : List A) → All P (xs ++ ys) → All P ys
  All-right [] ys h = h
  All-right (x ∷ xs) ys h = All-right xs ys h.1

  pub All-at : {a : A} {l : List A} → All P l → Memᴰ a l → P a
  All-at h (Memᴰ.head e) = rw e h.0
  All-at h (Memᴰ.tail m) = All-at h.1 m

  pub All-of : (l : List A) → ((a : A) → Memᴰ a l → P a) → All P l
  All-of [] h = tt
  All-of (x ∷ xs) h = (h x (Memᴰ.head refl), All-of xs (λ a m. h a (Memᴰ.tail m)))

module _ {ℓ} {A : Type ℓ} where
  pub take-le : (n : ℕ) (l : List A) → length (take n l) ≤ n
  take-le zero l = omega arith
  take-le (suc n) [] = omega arith
  take-le (suc n) (x ∷ xs) = omega (arith, take-le n xs)

  pub length-append : (xs ys : List A) → length (xs ++ ys) ≡ length xs + length ys
  length-append [] ys = omega arith
  length-append (x ∷ xs) ys = omega (arith, length-append xs ys)

  pub Memᴰ-select : (test : A → Bool) {a : A} (l : List A) → Memᴰ a (select test l) → Memᴰ a l
  Memᴰ-select test [] m = m
  Memᴰ-select test {a} (x ∷ xs) m = elim (Bool-cases (test x)) [
    | inl p ↦ kept (rw p at m) (Memᴰ-select test xs)
    | inr p ↦ Memᴰ.tail (Memᴰ-select test xs (rw p at m))
  ]
    where
      kept : Memᴰ a (x ∷ select test xs) → (Memᴰ a (select test xs) → Memᴰ a xs) → Memᴰ a (x ∷ xs)
      kept (Memᴰ.head e) f = Memᴰ.head e
      kept (Memᴰ.tail n) f = Memᴰ.tail (f n)

  pub select-All : (test : A → Bool) (l : List A) → All (λ x. test x ≡ true) (select test l)
  select-All test [] = tt
  select-All test (x ∷ xs) = elim (Bool-cases (test x)) [
    | inl p ↦ rw p (p, select-All test xs)
    | inr p ↦ rw p (select-All test xs)
  ]

  pub select-Memᴰ :
      (test : A → Bool) {a : A} {l : List A} → Memᴰ a l → test a ≡ true → Memᴰ a (select test l)
  select-Memᴰ test {a} (Memᴰ.head {x = x} {xs = xs} e) h = rw (ap test (sym e) ∙ h) (Memᴰ.head e)
  select-Memᴰ test {a} (Memᴰ.tail {x = x} {xs = xs} m) h = elim (Bool-cases (test x)) [
    | inl p ↦ rw p (Memᴰ.tail (select-Memᴰ test m h))
    | inr p ↦ rw p (select-Memᴰ test m h)
  ]

  -- A comprehension has the items that pass its test.
  pub Memᴰ-select_iff :
      (test : A → Bool) (a : A) (l : List A) → Memᴰ a (select test l) ↔ (Memᴰ a l × (test a ≡ true))
  Memᴰ-select_iff test a l =
      (λ m. (Memᴰ-select test l m, All-at _ (select-All test l) m), λ h. select-Memᴰ test h.0 h.1)

pub select-empty {ℓ} :
    {A : Type ℓ} (test : A → Bool) (l : List A) → (select test l ≡ []) ↔ All (λ x. test x ≡ false) l
select-empty test [] = (λ h. tt, λ h. refl)
select-empty test (x ∷ xs) = (
  λ h. (ground arith, (select-empty test xs).0 (ground arith)),
  λ h. ground (arith, (select-empty test xs).1 h.1),
)

pub append-empty {ℓ} : {A : Type ℓ} (xs ys : List A) → (xs ++ ys ≡ []) ↔ ((xs ≡ []) × (ys ≡ []))
append-empty [] ys = (λ h. (refl, h), λ h. h.1)
append-empty (x ∷ xs) ys = (λ h. cc, λ h. cc (h.0))

pub map-empty {ℓ κ} : {A : Type ℓ} {B : Type κ} (f : A → B) (l : List A) → (map f l ≡ []) ↔ (l ≡ [])
map-empty f [] = (λ h. refl, λ h. refl)
map-empty f (x ∷ xs) = (λ h. cc, λ h. cc)

pub Memᴰ-map {ℓ κ} :
    {A : Type ℓ} {B : Type κ} (f : A → B) {a : A} {l : List A} → Memᴰ a l → Memᴰ (f a) (map f l)
Memᴰ-map f (Memᴰ.head e) = Memᴰ.head (ap f e)
Memᴰ-map f (Memᴰ.tail m) = Memᴰ.tail (Memᴰ-map f m)

pub Memᴰ-of_map {ℓ κ} :
    {A : Type ℓ} {B : Type κ} (f : A → B) {b : B} (l : List A)
    → Memᴰ b (map f l)
    → (a : A) × Memᴰ a l × (b ≡ f a)
Memᴰ-of_map f [] m = elim m [ ]
Memᴰ-of_map f (x ∷ xs) (Memᴰ.head e) = (x, Memᴰ.head refl, e)
Memᴰ-of_map f (x ∷ xs) (Memᴰ.tail m) = let (a, n, e) = Memᴰ-of_map f xs m in (a, Memᴰ.tail n, e)

pub is_empty_iff {ℓ} : {A : Type ℓ} (l : List A) → (is_empty l ≡ true) ↔ (l ≡ [])
is_empty_iff [] = (λ h. refl, λ h. refl)
is_empty_iff (x ∷ xs) = (λ h. cc, λ h. cc)

module _ {ℓ} {A : Type ℓ} (test : A → Bool) where
  pub any_Memᴰ : (l : List A) → any test l ≡ true → (a : A) × Memᴰ a l × (test a ≡ true)
  any_Memᴰ [] h = absurd (ground arith)
  any_Memᴰ (x ∷ xs) h = elim (Bool-cases (test x)) [
    | inl p ↦ (x, Memᴰ.head refl, p)
    | inr p ↦ let (a, m, q) = any_Memᴰ xs (rw p at h) in (a, Memᴰ.tail m, q)
  ]

  pub Memᴰ-any : {a : A} {l : List A} → Memᴰ a l → test a ≡ true → any test l ≡ true
  Memᴰ-any {a} (Memᴰ.head {x = x} {xs = xs} e) h = rw (ap test (sym e) ∙ h) refl
  Memᴰ-any {a} (Memᴰ.tail {x = x} {xs = xs} m) h = ground (arith, Memᴰ-any m h)

-- Two comprehensions, one behind the other, are empty when neither test passes.
pub listed_empty {ℓ κ μ} :
    {A : Type ℓ} {B : Type κ} {C : Type μ} (f : A → C) (g : B → C) (test : A → Bool)
    (other : B → Bool) (l : List A) (m : List B)
    → (map f (select test l) ++ map g (select other m) ≡ [])
      ↔ (All (λ x. test x ≡ false) l × All (λ y. other y ≡ false) m)
listed_empty f g test other l m =
    let both = append-empty (map f (select test l)) (map g (select other m)) in
    let left = map-empty f (select test l) in
    let right = map-empty g (select other m) in
    let chosen = select-empty test l in
    let others = select-empty other m in
    (
      λ h. (chosen.0 (left.0 (both.0 h).0), others.0 (right.0 (both.0 h).1)),
      λ h. both.1 (left.1 (chosen.1 h.0), right.1 (others.1 h.1)),
    )

-- A comprehension of a comprehension has both tests.
pub select-select {ℓ} :
    {A : Type ℓ} (f g : A → Bool) (l : List A) → select f (select g l) ≡ select (λ a. g a && f a) l
select-select f g [] = refl
select-select f g (x ∷ xs) = elim (Bool-cases (g x)) [
  | inr out ↦ rw out (select-select f g xs)
  | inl kept ↦ elim (Bool-cases (f x)) [
    | inr out ↦ rw (kept, out) (select-select f g xs)
    | inl both ↦ rw (kept, both) (ap (λ l. x ∷ l) (select-select f g xs))
  ]
]
