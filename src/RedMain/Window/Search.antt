-- ===== src/RedMain/Window/Search.antt =====
-- The walk of window.py over the earlier runs: it stops at the newest one that clears a unit.
use mathlib.Core.List.{Memᴰ}
use github.Base.{ℕ, ◌+◌, String, ◌≡◌, refl, ap, ◌↔◌, ◌⊎◌, inl, inr, Bool, true, false}
use github.Base.{not, ◌||◌, none, some, List, [], ◌∷◌, ◌++◌, arith, All, take, length}
use github.Base.{any, contains, is_empty, select-empty, Bool-cases, ◌==◌, string_eq, eq_iff}
use github.Base.{
  contains-Memᴰ, Memᴰ-contains, option_eq, if◌then◌else◌, ◌∙◌, is_empty_iff, any_Memᴰ, Memᴰ-any,
  not-contains_iff,
}
use mathlib.Core.Path.{subst}
use github.Base.{option_beq_iff}
use github.Base.Dict.{lookup}
use github.RedMain.Units.{Row, Pair, pair_eq}
use github.RedMain.Window.{Evidence, Found, clears, cleared_by, walk, find_window}
use github.RedMain.Window.{conclusion_of, failed, is_in}

module _ {R : Type 0} (units : List Row) (load : R → Evidence) where
  -- A run that clears none of the units.
  abbrev pub ClearsNone : R → Type 0
  ClearsNone run = All (λ unit. clears unit (load run) ≡ false) units

  -- What the walk over `runs`, with `read` of them read before, has found.
  abbrev pub Walked : List R → ℕ → Found R → Type 0
  Walked runs read found =
      ((found ≡ record { run = none; cleared = []; read = read + length runs })
        × All ClearsNone runs)
      ⊎ ((newer : List R) × (run : R) × (older : List R) × (runs ≡ newer ++ run ∷ older)
          × (found ≡ record {
            run = some run;
            cleared = cleared_by units load run;
            read = read + length newer + 1;
          })
          × ¬ ClearsNone run
          × All ClearsNone newer)

  ClearsNone-iff : (run : R) → (is_empty (cleared_by units load run) ≡ true) ↔ ClearsNone run
  ClearsNone-iff run =
      let empty = is_empty_iff (cleared_by units load run) in
      let chosen = select-empty (λ unit. clears unit (load run)) units in
      (λ h. chosen.0 (empty.0 h), λ h. empty.1 (chosen.1 h))

  Walked-cons :
      (run : R) (runs : List R) (read : ℕ) (found : Found R)
      → ClearsNone run
      → Walked runs (read + 1) found
      → Walked (run ∷ runs) read found
  Walked-cons run runs read found h (inl (e, none_left)) = inl (e ∙ ground arith, (h, none_left))
  Walked-cons run runs read found h (inr (newer, last, older, split, e, clears_some, none_newer)) =
      inr (
        run ∷ newer,
        last,
        older,
        ap (◌∷◌ run) split,
        e ∙ ground arith,
        clears_some,
        (h, none_newer),
      )

  walk-Walked : (runs : List R) (read : ℕ) → Walked runs read (walk units load runs read)
  unfolding walk
  walk-Walked [] read = inl (ground arith, tt)
  walk-Walked (run ∷ runs) read = elim (Bool-cases (is_empty (cleared_by units load run))) [
    | inl e ↦
        rw (e, walk)
          (Walked-cons run runs read _ ((ClearsNone-iff run).0 e) (walk-Walked runs (read + 1)))
    | inr e ↦
        rw (e, walk)
          (inr (
            [],
            run,
            runs,
            refl,
            ground arith,
            (λ h. absurd (ground (arith, (ClearsNone-iff run).1 h))),
            tt,
          ))
  ]

  -- The walk reads at most `limit` runs, newest first. Either it reads all of these and none clears
  -- a unit, or it stops at the first that clears one, with exactly the units that this run clears,
  -- and none of the newer runs clears any unit.
  pub find_window-newest :
      (runs : List R) (limit : ℕ) → Walked (take limit runs) 0 (find_window units load runs limit)
  unfolding find_window
  find_window-newest runs limit = walk-Walked (take limit runs) 0

-- What clears a unit: its job succeeded; or, for a test whose job failed or timed out, the junit of
-- that run covers the job, does not list the test as failing, and lists it as passing if it lists
-- any passing test of the job.
abbrev pub Cleared : Row → Evidence → Type 0
Cleared unit evidence =
    let conclusion = conclusion_of (lookup evidence.jobs unit.job) in
    let test : Pair = (unit.name, unit.job) in
    (conclusion ≡ some "success")
    ⊎ ((is_in conclusion failed ≡ true)
        × (unit.kind ≡ "test")
        × Memᴰ unit.job evidence.covered
        × (¬ Memᴰ test evidence.failing)
        × (Memᴰ test evidence.passing
            ⊎ ((name : String) → ¬ Memᴰ (name, unit.job) evidence.passing)))

any_passing_iff :
    (job : String) (passing : List Pair)
    → (any (λ p. p.1 == job) passing ≡ false) ↔ ((name : String) → ¬ Memᴰ (name, job) passing)
any_passing_iff job passing = (
  λ h name m.
      absurd (ground (arith, Memᴰ-any (λ (p : Pair). p.1 == job) m ((eq_iff job job).1 refl))),
  λ h. elim (Bool-cases (any (λ p. p.1 == job) passing)) [
    | inl e ↦
        let (p, m, q) = any_Memᴰ (λ p. p.1 == job) passing e in
        absurd (h p.0 (subst (λ j. Memᴰ (p.0, j) passing) ((eq_iff p.1 job).0 q) m))
    | inr e ↦ e
  ],
)

-- The tests of `clears`, as Booleans.
abbrev Tests : Bool → Bool → Bool → Bool → Bool → Bool → Bool → Type 0
Tests success bad test covered fails some_pass passes =
    (success ≡ true)
    ⊎ ((bad ≡ true)
        × (test ≡ true)
        × (covered ≡ true)
        × (fails ≡ false)
        × ((passes ≡ true) ⊎ (some_pass ≡ false)))

Tests-iff :
    (success bad test covered fails some_pass passes : Bool)
    → ((if success
          then true
          else if not bad || not test
          then false
          else if not covered || fails
          then false
          else if some_pass
          then passes
          else true)
        ≡ true)
      ↔ Tests success bad test covered fails some_pass passes
Tests-iff success bad test covered fails some_pass passes = (λ h. ground arith, λ h. ground arith)

-- A run clears a unit exactly as `Cleared` says: a skipped, cancelled or absent job clears nothing.
pub clears_iff :
    (unit : Row) (evidence : Evidence) → (clears unit evidence ≡ true) ↔ Cleared unit evidence
unfolding clears
clears_iff unit evidence =
    let conclusion = conclusion_of (lookup evidence.jobs unit.job) in
    let test : Pair = (unit.name, unit.job) in
    let whole =
      Tests-iff (conclusion == some "success") (is_in conclusion failed) (unit.kind == "test")
        (contains evidence.covered unit.job) (contains evidence.failing test)
        (any (λ p. p.1 == unit.job) evidence.passing) (contains evidence.passing test) in
    let success = option_beq_iff conclusion (some "success") in
    (
      λ h. elim (whole.0 h) [
        | inl e ↦ inl (success.0 e)
        | inr (bad, kind, covered, fails, rest) ↦ inr (
          bad,
          (eq_iff _ _).0 kind,
          contains-Memᴰ _ covered,
          (not-contains_iff _ _).0 fails,
          elim rest [ inl p ↦ inl (contains-Memᴰ _ p) | inr q ↦ inr ((any_passing_iff _ _).0 q) ],
        )
      ],
      λ h. whole.1 (elim h [
        | inl e ↦ inl (success.1 e)
        | inr (bad, kind, covered, fails, rest) ↦ inr (
          bad,
          (eq_iff _ _).1 kind,
          Memᴰ-contains covered,
          (not-contains_iff _ _).1 fails,
          elim rest [ inl p ↦ inl (Memᴰ-contains p) | inr q ↦ inr ((any_passing_iff _ _).1 q) ],
        )
      ]),
    )
