-- ===== src/RedMain/Proof/Newest.antt =====
-- The newest verified ancestor, and the newest run of a commit.
use github.Base.{String, ◌≡◌, ◌⊎◌, ap, sym, ◌∙◌, inl, inr, true, false, Option, some}
use github.Base.{List, [], ◌∷◌, ◌++◌, All, Bool-cases, eq_iff, nat_eq, string_eq}
use mathlib.Core.Option.{some-injective}
use mathlib.Core.Path.{subst}
use github.Json.{Value, str, is_text}
use github.RedMain.Proof.Proven.{bound}
use github.RedMain.Proof.Runs.{sha_verdict, walk_verified, last_verified}

is_text-eq : (s : String) (v : Value) → is_text s v ≡ true → v ≡ str s
is_text-eq s (str t) h = ap str ((eq_iff t s).0 h)
is_text-eq s (Value.null) h = cc
is_text-eq s (Value.bool b) h = cc
is_text-eq s (Value.int n) h = cc
is_text-eq s (Value.real n t) h = cc
is_text-eq s (Value.arr vs) h = cc
is_text-eq s (Value.obj fs) h = cc

module _ (api : String → Option Value) (urlencode : String → String → String → String)
    (repo branch workflow name : String) where
  abbrev verdict_at : String → Option Value
  verdict_at sha = sha_verdict api urlencode repo branch workflow sha name

  -- A commit with a verdict that was read, and is no success.
  abbrev pub IsUnproven : String → Type 0
  IsUnproven sha = (v : Value) × (verdict_at sha ≡ some v) × (is_text "success" v ≡ false)

  -- The first success of a walk, or none.
  abbrev pub FirstVerified : List String → String → Type 0
  FirstVerified ancestors result =
      ((result ≡ "") × All IsUnproven ancestors)
      ⊎ ((before : List String) × (after : List String) × (ancestors ≡ before ++ result ∷ after)
          × (verdict_at result ≡ some (str "success"))
          × All IsUnproven before)

  FirstVerified-cons :
      (sha : String) (ancestors : List String) (result : String)
      → IsUnproven sha
      → FirstVerified ancestors result
      → FirstVerified (sha ∷ ancestors) result
  FirstVerified-cons sha ancestors result h (inl (e, all)) = inl (e, (h, all))
  FirstVerified-cons sha ancestors result h (inr (before, after, e, v, all)) =
      inr (sha ∷ before, after, ap (◌∷◌ sha) e, v, (h, all))

  walk_verified-FirstVerified :
      (ancestors : List String) (result : String)
      → walk_verified api urlencode repo branch workflow name ancestors ≡ some result
      → FirstVerified ancestors result
  unfolding walk_verified
  walk_verified-FirstVerified [] result e = inl (sym (some-injective _ _ e), tt)
  walk_verified-FirstVerified (sha ∷ ancestors) result e =
      let (v, f, g) = bound _ _ _ e in
      elim (Bool-cases (is_text "success" v)) [
        | inl found ↦
            let same : sha ≡ result = some-injective _ _ (rw found at g) in
            let proven = f ∙ ap some (is_text-eq "success" v found) in
            inr (
              [],
              ancestors,
              ap (λ s. s ∷ ancestors) same,
              subst (λ s. verdict_at s ≡ some (str "success")) same proven,
              tt,
            )
        | inr other ↦
            FirstVerified-cons sha ancestors result (v, f, other)
              (walk_verified-FirstVerified ancestors result (rw other at g))
      ]

  -- Where no reading raises, the base is the newest ancestor whose verdict is a success: every
  -- ancestor before it was read and is none. It is the empty text where no ancestor is one.
  pub last_verified-FirstVerified :
      (ancestors : List String) (result : String)
      → last_verified api urlencode repo branch workflow name ancestors ≡ some result
      → FirstVerified ancestors result
  unfolding last_verified
  last_verified-FirstVerified ancestors result e = walk_verified-FirstVerified ancestors result e
