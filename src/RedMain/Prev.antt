-- ===== src/RedMain/Prev.antt =====
-- .github/red_main/prev.py: the run before the failing one. `none` is an exception, `some none` that
-- nothing is printed.
pub mod Earlier
pub mod Decisive
mod Tests
use github.Base.{ℕ, String, Bool, true, false, not, ◌&&◌, ◌||◌, Option, none, some}
use github.Base.{List, [], ◌∷◌, map, length, ltb, leb, ◌==◌, nat_eq, if◌then◌else◌}
use github.Base.Sorting.{sort}
use github.Base.Text.{is_blank}
use github.Json.{Value, Fields, get, obj, str, count_of, list_of, is_text}
use github.RedMain.Proof.Origin.{positive_id}
use github.RedMain.Proof.Pages.{Row, and_then}
use github.RedMain.Proof.Verdict.{checked_verdict}
use github.RedMain.Proof.Failed.{is_among, pending_statuses, conclusions}
use github.RedMain.Window.{Moment, settled}
use github.RedMain.Window.{timestamp as moment_of}

-- What the handler gives to read a cancelled run by.
pub record Context : Type 0 where
  pub repo : String
  pub branch : String
  pub workflow : String
  pub name : String

-- The run that is printed, with its conclusion.
pub record Answer : Type 0 where
  pub run : Row
  pub conclusion : Value

-- The rows of a history that is complete.
abbrev pub rows_of : Fields → Option (List Value)
rows_of body = and_then (list_of (get body "workflow_runs")) (λ rows.
    and_then (count_of (get body "total_count"))
      (λ count. if count == length rows then some rows else none))

abbrev pub history : Value → Option (List Value)
history (obj body) = rows_of body
history _ = none

abbrev pub is_completed : Row → Bool
is_completed row = is_text "completed" (get row "status")

abbrev pub is_known : Row → Bool
is_known row =
    positive_id (get row "id") && is_among ("completed" ∷ pending_statuses) (get row "status")

abbrev pub has_outcome : Row → Bool
has_outcome row = not (is_completed row) || is_among conclusions (get row "conclusion")

-- A candidate: it is completed, earlier, and its conclusion may decide.
abbrev pub is_candidate : ℕ → ℕ → Row → Bool
is_candidate created at row =
    is_completed row && ltb at created && is_among settled (get row "conclusion")

abbrev pub add_candidate : ℕ → ℕ → Row → List (ℕ × Row) → List (ℕ × Row)
add_candidate created at row rest = if is_candidate created at row then (at, row) ∷ rest else rest

-- `datetime.fromisoformat` is a parameter, as in Window.
module _ (fromisoformat : String → Option Moment) where
  unfoldable pub timestamp : Value → Option ℕ
  timestamp (str s) = if is_blank s then none else moment_of fromisoformat (some s)
  timestamp _ = none

  unfoldable pub read_rows : ℕ → List Value → Option (List (ℕ × Row))
  unfolding timestamp
  read_rows created [] = some []
  read_rows created (obj row ∷ rows) =
      let rest = read_rows created rows in
      if is_known row
      then and_then (timestamp (get row "created_at")) (λ at.
        if has_outcome row
        then and_then rest (λ more. some (add_candidate created at row more))
        else none)
      else none
  read_rows created _ = none

  -- `runs.sort(key=…, reverse=True)`, which keeps the order of equal times
  unfoldable pub predecessors : String → Value → Option (List Row)
  unfolding read_rows
  predecessors created body = and_then (timestamp (str created)) (λ before.
      and_then (history body) (λ rows.
        and_then (read_rows before rows)
          (λ runs. some (map (λ run. run.1) (sort (λ a b. leb b.0 a.0) runs)))))

  module _ (api : String → Option Value) (context : Option Context) where
    -- What an authenticated verdict of a cancelled run says.
    abbrev pub by_verdict : Row → Value → Option (Option Answer) → Option (Option Answer)
    by_verdict row verdict rest =
        if is_among ("cancelled" ∷ "ineligible" ∷ []) verdict
        then rest
        else if is_among ("success" ∷ "failure" ∷ "timed_out" ∷ []) verdict
        then some (some (record { run = row; conclusion = verdict }))
        else none

    abbrev pub verdict_in : Context → Row → Option Value
    verdict_in c row = checked_verdict api (obj row) c.repo c.branch c.workflow c.name

    abbrev pub by_context : Option Context → Row → Option (Option Answer) → Option (Option Answer)
    by_context none row rest = rest
    by_context (some c) row rest =
        and_then (verdict_in c row) (λ verdict. by_verdict row verdict rest)

    unfoldable pub decide : List Row → Option (Option Answer)
    decide [] = some none
    decide (row ∷ rows) =
        let rest = decide rows in
        if is_text "cancelled" (get row "conclusion")
        then by_context context row rest
        else some (some (record { run = row; conclusion = get row "conclusion" }))

    unfoldable pub main : String → Value → Option (Option Answer)
    unfolding predecessors decide
    main created body = and_then (predecessors created body) decide
