-- ===== src/RedMain/Proof/Command.antt =====
-- The command line of red_main/proof.py: `main`. `none` is an exception, which ends the script with 1.
use github.Base.{ℕ, String, ◌<>◌, Option, none, some}
use github.Base.{List, [], ◌∷◌, map, ◌==◌, string_eq, if◌then◌else◌}
use github.Base.Dict.{Dict}
use github.Json.{Value}
use github.RedMain.Proof.Pages.{Row, and_then}
use github.RedMain.Proof.Checks.{linked_check_id}
use github.RedMain.Proof.Verdict.{checked_verdict}
use github.RedMain.Proof.Runs.{branch_history, sha_verdict, last_verified, last_verified_remote}
use github.RedMain.Proof.Failed.{failed_jobs, failed_lanes, failed_units, annotated, message_of}

-- What is printed: a check's number, the history, the failed jobs, these with the messages of their
-- annotations, a text, or a verdict.
pub data Printed : Type 0 where
  check : ℕ → Printed
  history : List Row → Printed
  jobs : List Row → Printed
  evidence : List (Row × List String) → Printed
  text : String → Printed
  verdict : Value → Printed

abbrev printed : {A : Type 0} → (A → Printed) → Option A → Option Printed
printed form none = none
printed form (some a) = some (form a)

module _ (api : String → Option Value) (urlencode : String → String → String → String)
    (ancestors : String → List String) (mask : String → String) (python_str : Value → String)
    (recover : Row → List Row → List Row → Option (Dict ℕ (List Row))) where
  abbrev messages_of : Row × List Row → Row × List String
  messages_of (job, notes) = (job, map (message_of mask python_str) notes)

  unfoldable pub run_command : String → String → String → String → String → String → Option Printed
  run_command command repo branch workflow identity name =
      if command == "history"
      then printed history (branch_history api urlencode repo branch workflow)
      else if command == "failed-jobs"
      then printed jobs (failed_jobs api repo branch workflow identity)
      else if command == "failed-evidence"
      then printed (λ found. evidence (map messages_of found))
          (annotated mask python_str api repo branch workflow recover identity)
      else if command == "failed-lanes"
      then printed text (failed_lanes api repo branch workflow identity)
      else if command == "failed-units"
      then printed text (failed_units mask python_str api repo branch workflow recover identity)
      else if command == "base"
      then printed text (last_verified api urlencode repo branch workflow name (ancestors identity))
      else if command == "remote-base"
      then printed text (last_verified_remote api urlencode repo branch workflow name identity)
      else if command == "sha"
      then printed verdict (sha_verdict api urlencode repo branch workflow identity name)
      else if command == "run"
      then printed verdict (
          and_then (api ("repos/" <> (repo <> ("/actions/runs/" <> identity))))
            (λ run. checked_verdict api run repo branch workflow name))
      else none

  abbrev name_in : List String → String
  name_in [] = "verified"
  name_in (name ∷ rest) = name

  -- The arguments after the name of the script, and the job on standard input for `check-id`.
  unfoldable pub main : List String → Option Row → Option Printed
  unfolding run_command
  main (command ∷ repo ∷ []) job =
      if command == "check-id"
      then and_then job (λ row. printed check (linked_check_id row repo))
      else none
  main (command ∷ repo ∷ branch ∷ workflow ∷ identity ∷ rest) job =
      run_command command repo branch workflow identity (name_in rest)
  main _ job = none
