-- ===== src/CiOk/Gate.antt =====
-- When the gate of ci_ok.py passes.
use github.Base.{String, ◌≡◌, refl, ◌≢◌, ◌↔◌, ◌⊎◌, inl, inr, true, false, Option, none, some}
use github.Base.{List, [], ◌∷◌, map, arith, All, All-of, All-at, contains, string_eq}
use mathlib.Core.List.{append-nil}
use mathlib.Core.Option.{some-injective}
use mathlib.Core.Path.{subst}
use github.Base.{◌∙◌, sym, ◌==◌, Bool-cases, contains-distinct, contains-Memᴰ, Memᴰ-contains}
use github.Json.{Value, Fields, no_fields, field, obj}
use github.NeedsPass.{JobResult, Needs, names, required_for, verdict}
use github.NeedsPass.Verdict.{Acceptable, verdict-empty_iff}
use github.CiOk.{read_needs, evaluate, evaluate_fields, main}
use github.CiOk.Reading.{SayAll, SaysNeeds, read_needs-SayAll}

-- A job that must succeed did; any other succeeded or was skipped.
abbrev pub Gated : List String → String × JobResult → Type 0
Gated required (job, r) =
    (r ≡ JobResult.text "success")
    ⊎ ((contains required job ≡ false) × (r ≡ JobResult.text "skipped"))

-- The gate adds no job to those that must succeed, whatever the event.
contains-required_for :
    (required : List String) (event job : String)
    → contains (required_for required [] event) job ≡ contains required job
unfolding required_for
contains-required_for required event job = elim (Bool-cases (event == "merge_group")) [
  | inl e ↦ rw e
  | inr e ↦ rw e (rw append-nil (contains-distinct required job))
]

All-required_for :
    (P : String → Type 0) (required : List String) (event : String)
    → All P (required_for required [] event) ↔ All P required
All-required_for P required event =
    let same = contains-required_for required event in
    (
      λ h. All-of P required λ job m. All-at P h (contains-Memᴰ _ (same job ∙ Memᴰ-contains m)),
      λ h.
          All-of P _
            λ job m. All-at P h (contains-Memᴰ required (sym (same job) ∙ Memᴰ-contains m)),
    )

Gated-iff :
    (required : List String) (event : String) (entry : String × JobResult)
    → Acceptable (required_for required [] event) [] entry ↔ Gated required entry
Gated-iff required event (job, r) = (
  λ h. ground (arith, contains-required_for required event job),
  λ h. ground (arith, contains-required_for required event job),
)

All-Gated :
    (required : List String) (event : String) (needs : Needs)
    → All (Acceptable (required_for required [] event) []) needs ↔ All (Gated required) needs
All-Gated required event needs = (
  λ h. All-of _ needs λ entry m. (Gated-iff required event entry).0 (All-at _ h m),
  λ h. All-of _ needs λ entry m. (Gated-iff required event entry).1 (All-at _ h m),
)

-- What the gate asks of the results it could read.
abbrev pub Passing : List String → Needs → Type 0
Passing required needs =
    All (λ job. contains (map (λ entry. entry.0) needs) job ≡ true) required
    × All (Gated required) needs

verdict-Passing :
    (required : List String) (event : String) (needs : Needs)
    → (verdict needs required [] event [] ≡ []) ↔ Passing required needs
verdict-Passing required event needs =
    let whole = verdict-empty_iff needs required [] event [] in
    let declared =
      All-required_for (λ job. contains (map (λ entry. entry.0) needs) job ≡ true) required event in
    let gated = All-Gated required event needs in
    (
      λ h. (declared.0 (whole.0 h).0, gated.0 (whole.0 h).1),
      λ h. whole.1 (declared.1 h.0, gated.1 h.1),
    )

fields-empty_iff :
    (fs : Fields) (required : List String) (event : String) (o : Option Needs)
    → read_needs fs ≡ o
    → (evaluate_fields fs required event ≡ [])
      ↔ ((read : Needs) × (o ≡ some read) × (required ≢ []) × Passing required read)
unfolding evaluate
fields-empty_iff fs [] event o e = (λ h. cc, λ h. absurd (h.2 refl))
fields-empty_iff fs (job ∷ jobs) event none e = (λ h. absurd (ground arith), λ h. cc (h.1))
fields-empty_iff fs (job ∷ jobs) event (some needs) e =
    let passing = verdict-Passing (job ∷ jobs) event needs in
    (
      λ h. (needs, refl, (λ p. cc), passing.0 (rw (e, evaluate_fields) at h)),
      λ h.
          rw (e, evaluate_fields)
            (passing.1 (subst (Passing (job ∷ jobs)) (sym (some-injective _ _ h.1)) h.3)),
    )

-- What an evaluation without a reason says of NEEDS.
abbrev Accepts : Value → List String → Type 0
Accepts v required = (needs : Needs) × SaysNeeds v needs × (required ≢ []) × Passing required needs

object-empty_iff :
    (fs : Fields) (required : List String) (event : String)
    → fs ≢ no_fields
    → (evaluate_fields fs required event ≡ []) ↔ Accepts (obj fs) required
object-empty_iff fs required event some_field =
    let (into, back) = fields-empty_iff fs required event (read_needs fs) refl in
    (
      λ h.
          let (needs, e, n, p) = into h in
          (needs, (fs, refl, some_field, (read_needs-SayAll fs needs).0 e), n, p),
      λ (needs, (gs, e, f, all), n, p).
          back (
            needs,
            (read_needs-SayAll fs needs).1 (subst (λ l. SayAll l needs) (same e) all),
            n,
            p,
          ),
    )
  where
    same : {gs : Fields} → obj fs ≡ obj gs → gs ≡ fs
    same h = cc

-- The same for any value of NEEDS.
pub evaluate-empty_iff :
    (needs : Value) (required : List String) (event : String)
    → (evaluate needs required event ≡ []) ↔ Accepts needs required
unfolding evaluate
evaluate-empty_iff (obj (field k v fs)) required event =
    object-empty_iff (field k v fs) required event (λ e. cc)
evaluate-empty_iff (obj no_fields) required event =
    (λ h. cc, λ (needs, (fs, e, f, all), n, p). absurd (f cc))
evaluate-empty_iff v required event = (λ h. cc, λ (needs, (fs, e, f, all), n, p). cc)

-- The step exits with 0 exactly when NEEDS is JSON, a nonempty object that maps nonempty job names to
-- objects, each with a text or null for a result, or none; REQUIRED names some job; every job it
-- names is a dependency and succeeded; and every other dependency succeeded or was skipped. This
-- holds for every event.
pub main-zero_iff :
    (needs : Option Value) (required event : String)
    → ((main needs required event).1 ≡ 0) ↔ (
        (v : Value) × (read : Needs) × (needs ≡ some v)
        × SaysNeeds v read
        × (names required ≢ [])
        × Passing (names required) read)
unfolding main
main-zero_iff none required event = (λ h. cc, λ h. cc (h.2))
main-zero_iff (some v) required event =
    let (into, back) = evaluate-empty_iff v (names required) event in
    (
      λ h. let (read, e, n, p) = into (ground arith) in (v, read, refl, e, n, p),
      λ (w, read, f, says, n, p).
          rw (back (read, subst (λ u. SaysNeeds u read) (sym (some-injective _ _ f)) says, n, p))
            refl,
    )
