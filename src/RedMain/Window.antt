-- ===== src/RedMain/Window.antt =====
-- .github/red_main/window.py: the regression window of a red trunk, per failing unit.
pub mod Judge
pub mod Live
pub mod Search
pub mod History
use github.Base.{
  ℕ, zero, suc, ◌+◌, String, ◌<>◌, Bool, true, false, not, ◌&&◌, ◌||◌, Option, none, some,
}
use github.Base.{List, [], ◌∷◌, map, ltb, leb, is_empty, take, select, any, contains, Eq, ◌==◌}
use github.Base.{string_eq, option_eq, if◌then◌else◌}
use github.Base.Sorting.{sort}
use github.Base.Text.{replace}
use github.Base.Dict.{Dict, lookup}
use github.RedMain.Units.{Row, row_eq, row_leb, Pair, pair_eq}

abbrev pub settled : List String
settled = "success" ∷ "failure" ∷ "timed_out" ∷ "cancelled" ∷ []

abbrev pub failed : List String
failed = "failure" ∷ "timed_out" ∷ []

-- `value in words`, of a text or null
abbrev pub is_in : Option String → List String → Bool
is_in none words = false
is_in (some s) words = contains words s

-- What one earlier run shows: the conclusions of its jobs, and its junit, the tests that failed and
-- those that passed, each with its job, and the jobs that published any test.
pub record Evidence : Type 0 where
  pub jobs : Dict String (Option String)
  pub failing : List Pair
  pub passing : List Pair
  pub covered : List String

-- `evidence.jobs.get(job)`: a missing job and a null conclusion are both None.
abbrev pub conclusion_of : Option (Option String) → Option String
conclusion_of none = none
conclusion_of (some c) = c

-- The junit's part of `clears`.
junit_clears : Row → Evidence → Bool
junit_clears unit evidence =
    if not (contains evidence.covered unit.job) || contains evidence.failing (unit.name, unit.job)
    then false
    else if any (λ p. p.1 == unit.job) evidence.passing
    then contains evidence.passing (unit.name, unit.job)
    else true

unfoldable pub clears : Row → Evidence → Bool
unfolding junit_clears
clears unit evidence =
    let conclusion = conclusion_of (lookup evidence.jobs unit.job) in
    if conclusion == some "success"
    then true
    else if not (is_in conclusion failed) || not (unit.kind == "test")
    then false
    else junit_clears unit evidence

-- What the walk over the earlier runs returns: the run that decides, the units that it clears, and
-- how many runs were read.
pub record Found (R : Type 0) : Type 0 where
  pub run : Option R
  pub cleared : List Row
  pub read : ℕ

abbrev pub walk_runs : ℕ
walk_runs = 100

module _ {R : Type 0} (units : List Row) (load : R → Evidence) where
  abbrev pub cleared_by : R → List Row
  cleared_by run = select (λ unit. clears unit (load run)) units

  unfoldable pub walk : List R → ℕ → Found R
  walk [] read = record { run = none; cleared = []; read = read }
  walk (run ∷ runs) read =
      let rest = walk runs (read + 1) in
      let cleared = cleared_by run in
      if is_empty cleared
      then rest
      else record { run = some run; cleared = cleared; read = read + 1 }

  unfoldable pub find_window : List R → ℕ → Found R
  unfolding walk
  find_window runs limit = walk (take limit runs) 0

-- What `judge` says: the target that failed the same way, the job that may hide a target, or a pass.
pub data Judgement : Type 0 where
  fail : Row → Judgement
  inconclusive : String → Judgement
  pass : Judgement

-- `job in (lanes if kind == "test" else jobs)`
unfoldable pub may_hide : List Row → Row → Bool
may_hide failing target =
    contains
      (map (λ row. row.job)
        (if target.kind == "test" then select (λ row. row.kind == "lane") failing else failing))
      target.job

abbrev pub judged : Option String → Judgement
judged none = pass
judged (some job) = inconclusive job

-- The loop over `sorted(targets)`.
unfoldable pub judge_loop : List Row → List Row → Option String → Judgement
unfolding may_hide
judge_loop failing [] hidden = judged hidden
judge_loop failing (target ∷ targets) hidden =
    let rest =
      judge_loop failing targets
        (if hidden == none && may_hide failing target then some target.job else hidden) in
    if contains failing target then fail target else rest

unfoldable pub judge : List Row → List Row → Judgement
unfolding judge_loop
judge targets failing = judge_loop failing (sort row_leb targets) none

unfoldable pub print_judgement : Judgement → String
print_judgement (fail target) =
    "fail the target "
    <> ((if target.kind == "test"
          then target.name <> (" (" <> (target.job <> ")"))
          else "job " <> (target.job <> (" (" <> (target.name <> ")"))))
        <> " failed the same way in the candidate")
print_judgement (inconclusive job) =
    "inconclusive the target job "
    <> (job
        <> (" failed in the candidate, " <> "but not the same way, so the target may not have run"))
print_judgement pass = "pass none of the target units failed in the candidate"

-- A row of the workflow's history, as far as this script reads it.
pub record Run : Type 0 where
  pub id : ℕ
  pub status : Option String
  pub conclusion : Option String
  pub created_at : Option String

-- What `datetime.fromisoformat` gives: whether it has a time zone, and the instant.
pub record Moment : Type 0 where
  pub has_zone : Bool
  pub instant : ℕ

-- `timestamp`, with `none` for what it raises
module _ (fromisoformat : String → Option Moment) where
  unfoldable pub timestamp : Option String → Option ℕ
  timestamp none = none
  timestamp (some value) = elim (fromisoformat (replace b'Z' "+00:00" value)) [
    | none ↦ none
    | some parsed ↦ if parsed.has_zone then some parsed.instant else none
  ]

  module _ (is_eligible : Run → Bool) where
    abbrev pub is_settled : Run → Bool
    is_settled run = run.status == some "completed" && is_in run.conclusion settled

    add_run : ℕ → Run → Option ℕ → Option (List (ℕ × Run)) → Option (List (ℕ × Run))
    add_run before run (some t) (some rest) =
        if ltb t before && is_eligible run then some ((t, run) ∷ rest) else some rest
    add_run before run _ _ = none

    -- The comprehension, each row with its time. Rows that are not settled are not read further.
    unfoldable pub candidates : ℕ → List Run → Option (List (ℕ × Run))
    unfolding add_run timestamp
    candidates before [] = some []
    candidates before (run ∷ rows) =
        let rest = candidates before rows in
        if is_settled run then add_run before run (timestamp run.created_at) rest else rest

    -- `sort(key=lambda row: (timestamp(row["created_at"]), row["id"]), reverse=True)`
    abbrev pub newer_first : ℕ × Run → ℕ × Run → Bool
    newer_first (t, r) (u, s) = ltb u t || (leb u t && leb s.id r.id)

    sorted_runs : Option (List (ℕ × Run)) → Option (List Run)
    sorted_runs none = none
    sorted_runs (some rows) = some (map (λ row. row.1) (sort newer_first rows))

    since : Option ℕ → List Run → Option (List Run)
    unfolding candidates sorted_runs
    since none rows = none
    since (some before) rows = sorted_runs (candidates before rows)

    unfoldable pub earlier_runs : List Run → Option String → Option (List Run)
    unfolding since
    earlier_runs rows created = since (timestamp created) rows
