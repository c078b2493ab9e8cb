-- ===== src/Base/Equality.antt =====
-- Python's `==` and `in`, for the types that the program compares.
use Prim.Native.Nat.{ℕ}
use Prim.Native.String.{String}
use mathlib.Core.Path.{◌≡◌, refl}
use mathlib.Core.Logic.{◌↔◌, inl, inr}
use mathlib.Core.Bool.{Bool, true, false, ◌||◌}
use mathlib.Core.Option.{Option, none, some}
use mathlib.Core.List.{List, [], ◌∷◌, Memᴰ}
use native.Mathlib.Omega.{arith}
use text.Mathlib.Text.{◌==◌ as str_eq}
use text.Mathlib.TextEquality.{eq_iff}
use github.Base.Tests.{eqb, Bool-cases, if◌then◌else◌}

-- A type that Python compares by value: the test is true exactly of equal values.
pub record Eq {ℓ} (Item : Type ℓ) : Type ℓ where
  pub is_same : (left right : Item) → Bool
  pub is_same_iff : (left right : Item) → (is_same left right ≡ true) ↔ (left ≡ right)

abbrev pub ◌==◌ {κ} : {Item : Type κ} ⦃same : Eq Item⦄ (left right : Item) → Bool
◌==◌ ⦃same⦄ left right = same.is_same left right

infix 50 ◌==◌
pub nat_beq_iff : (a b : ℕ) → (eqb a b ≡ true) ↔ (a ≡ b)
nat_beq_iff a b = (λ h. ground arith, λ h. ground arith)

instance abbrev pub nat_eq : Eq ℕ
nat_eq = record { is_same = eqb; is_same_iff = nat_beq_iff }

instance abbrev pub string_eq : Eq String
string_eq = record { is_same = str_eq; is_same_iff = eq_iff }

abbrev option_beq {ℓ} : {A : Type ℓ} ⦃e : Eq A⦄ → Option A → Option A → Bool
option_beq none none = true
option_beq (some a) (some b) = a == b
option_beq _ _ = false

pub option_beq_iff {ℓ} :
    {A : Type ℓ} ⦃e : Eq A⦄ (a b : Option A) → (option_beq a b ≡ true) ↔ (a ≡ b)
option_beq_iff none none = (λ h. refl, λ h. refl)
option_beq_iff none (some b) = (λ h. cc, λ h. cc)
option_beq_iff (some a) none = (λ h. cc, λ h. cc)
option_beq_iff ⦃e⦄ (some a) (some b) =
    (λ h. cc ((e.is_same_iff a b).0 h), λ h. (e.is_same_iff a b).1 (cc h))

instance abbrev pub option_eq {ℓ} : {A : Type ℓ} ⦃e : Eq A⦄ → Eq (Option A)
option_eq = record { is_same = option_beq; is_same_iff = option_beq_iff }

module _ {ℓ} {A : Type ℓ} ⦃e : Eq A⦄ where
  pub ==_refl : (a : A) → (a == a) ≡ true
  ==_refl a = (e.is_same_iff a a).1 refl

  -- `a in l`
  abbrev pub contains : List A → A → Bool
  contains [] a = false
  contains (x ∷ xs) a = a == x || contains xs a

  -- `set(l)`: each item once
  unfoldable pub distinct : List A → List A
  distinct [] = []
  distinct (x ∷ xs) = let rest = distinct xs in if contains rest x then rest else x ∷ rest

  pub contains-Memᴰ : {a : A} (l : List A) → contains l a ≡ true → Memᴰ a l
  contains-Memᴰ [] h = absurd (ground arith)
  contains-Memᴰ {a} (x ∷ xs) h = elim (Bool-cases (a == x)) [
    | inl p ↦ Memᴰ.head ((e.is_same_iff a x).0 p)
    | inr p ↦ Memᴰ.tail (contains-Memᴰ xs (ground arith))
  ]

  pub Memᴰ-contains : {a : A} {l : List A} → Memᴰ a l → contains l a ≡ true
  Memᴰ-contains {a} (Memᴰ.head {x = x} p) = ground (arith, (e.is_same_iff a x).1 p)
  Memᴰ-contains (Memᴰ.tail m) = ground (arith, Memᴰ-contains m)

  pub contains-distinct : (l : List A) (a : A) → contains (distinct l) a ≡ contains l a
  unfolding distinct
  contains-distinct [] a = refl
  contains-distinct (x ∷ xs) a =
      ground (arith, contains-distinct xs a, contains-distinct xs x, e.is_same_iff a x)

module _ {ℓ} {A : Type ℓ} ⦃e : Eq A⦄ where
  pub contains_iff : (l : List A) (a : A) → (contains l a ≡ true) ↔ Memᴰ a l
  contains_iff l a = (contains-Memᴰ l, Memᴰ-contains)

  pub not-contains_iff : (l : List A) (a : A) → (contains l a ≡ false) ↔ (¬ Memᴰ a l)
  not-contains_iff l a = (
    λ h m. absurd (ground (arith, Memᴰ-contains m)),
    λ h. elim (Bool-cases (contains l a)) [ inl p ↦ absurd (h (contains-Memᴰ l p)) | inr p ↦ p ],
  )
