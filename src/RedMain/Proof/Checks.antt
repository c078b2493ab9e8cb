-- ===== src/RedMain/Proof/Checks.antt =====
-- The jobs of a run and the checks that they are bound to: `linked_check_id`, `failure_before_cancel`
-- and `authenticated_job` of red_main/proof.py. `api` reads a path, and `none` is an exception.
use github.Base.{ℕ, String, ◌<>◌, Bool, true, false, not, ◌&&◌, Option, none, some}
use github.Base.{List, [], ◌∷◌, select, any, nat_eq, string_eq, if◌then◌else◌}
use github.Base.Text.{strip_prefix, strip, is_blank}
use github.Base.Decimal.{decimal, positive_in}
use github.Json.{
  Value, Fields, no_fields, get, find, obj, int, nat, text_of, list_of, positive_of, same, is_text,
}
use github.RedMain.Proof.Origin.{positive_id, holds}
use github.RedMain.Proof.Pages.{Row, and_then}

abbrev pub actions_app_id : ℕ
actions_app_id = 15368

abbrev pub fail_fast_step : String
fail_fast_step = "Cancel failed current run"

abbrev number_in : Option String → Option ℕ
number_in none = none
number_in (some s) = positive_in s

abbrev check_in : String → Option String → Option ℕ
check_in repo none = none
check_in repo (some url) =
    number_in (strip_prefix url ("https://api.github.com/repos/" <> (repo <> "/check-runs/")))

unfoldable pub linked_check_id : Row → String → Option ℕ
linked_check_id job repo = check_in repo (text_of (get job "check_run_url"))

-- A completed step or job with a conclusion.
abbrev pub ended : String → Row → Bool
ended conclusion row =
    is_text "completed" (get row "status") && is_text conclusion (get row "conclusion")

-- A list whose items are all objects.
abbrev pub all_rows : List Value → Option (List Row)
all_rows [] = some []
all_rows (obj row ∷ values) = and_then (all_rows values) (λ rows. some (row ∷ rows))
all_rows (_ ∷ values) = none

abbrev pub is_hook : Row → Bool
is_hook step = is_text fail_fast_step (get step "name")

-- `steps[:index]`, of the first hook
unfoldable pub before_hook : List Row → List Row
before_hook [] = []
before_hook (step ∷ steps) =
    let rest = before_hook steps in if is_hook step then [] else step ∷ rest

-- The one hook succeeded, and a step before it failed.
abbrev pub hook_decides : List Row → List Row → Bool
hook_decides (hook ∷ []) steps = ended "success" hook && any (ended "failure") (before_hook steps)
hook_decides _ steps = false

abbrev pub steps_decide : Option (List Row) → Bool
steps_decide none = false
steps_decide (some steps) = hook_decides (select is_hook steps) steps

abbrev pub steps_of : Row → Option (List Row)
steps_of job = and_then (list_of (get job "steps")) all_rows

unfoldable pub failure_before_cancel : Row → Bool
unfolding before_hook
failure_before_cancel job = ended "cancelled" job && steps_decide (steps_of job)

-- `row.get(key, {})`, of which a key is read: an exception unless it is an object
abbrev pub dict_at : Option Value → Option Fields
dict_at none = some no_fields
dict_at (some (obj fs)) = some fs
dict_at (some _) = none

-- `a and b`, where `b` may raise
abbrev pub also : Bool → Option Bool → Option Bool
also true b = b
also false b = some false

abbrev number_or_zero : Option ℕ → ℕ
number_or_zero none = 0
number_or_zero (some n) = n

-- `row["id"]` of a row whose id is positive
abbrev pub id_of : Row → ℕ
id_of row = number_or_zero (positive_of (get row "id"))

abbrev pub job_url : String → Row → Row → String
job_url repo run job =
    "https://github.com/"
    <> (repo <> ("/actions/runs/" <> (decimal (id_of run) <> ("/job/" <> decimal (id_of job)))))

-- The row names the run's attempt and its commit.
abbrev pub is_of_run : Row → Row → Bool
is_of_run run job =
    holds (λ s. not (is_blank (strip s))) (text_of (get job "name"))
    && positive_id (get job "id")
    && same (get job "run_id") (get run "id")
    && same (get job "run_attempt") (get run "run_attempt")
    && positive_id (get run "run_attempt")
    && same (get job "head_sha") (get run "head_sha")

-- The check is that of GitHub Actions for this job of this run.
unfoldable pub check_agrees : Row → Row → String → ℕ → Fields → Option Bool
check_agrees run job repo check_id check = also (same (get check "id") (int (nat check_id))) (
    and_then (dict_at (find check "app")) (λ app.
      also
        (same (get app "id") (int (nat actions_app_id))
          && is_text "github-actions" (get app "slug")
          && same (get check "head_sha") (get run "head_sha")
          && same (get check "name") (get job "name"))
        (and_then (dict_at (find check "check_suite")) (λ suite. some (
          same (get suite "id") (get run "check_suite_id")
          && is_text (job_url repo run job) (get check "details_url")
          && same (get check "status") (get job "status")
          && same (get check "conclusion") (get job "conclusion"))))))

abbrev pub check_value : Row → Row → String → ℕ → Value → Option Bool
check_value run job repo check_id (obj check) = check_agrees run job repo check_id check
check_value run job repo check_id _ = none

module _ (api : String → Option Value) where
  abbrev pub check_linked : Row → Row → String → Option ℕ → Option Bool
  check_linked run job repo none = some false
  check_linked run job repo (some check_id) = also (is_of_run run job) (
      and_then (api ("repos/" <> (repo <> ("/check-runs/" <> decimal check_id))))
        (check_value run job repo check_id))

  unfoldable pub authenticated_job : Row → Row → String → Option Bool
  unfolding linked_check_id check_agrees
  authenticated_job run job repo = check_linked run job repo (linked_check_id job repo)
