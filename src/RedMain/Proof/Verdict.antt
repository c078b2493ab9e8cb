-- ===== src/RedMain/Proof/Verdict.antt =====
-- `checked_verdict` of red_main/proof.py. A verdict is a JSON value, for a job's conclusion is one.
use github.Base.{String, ◌<>◌, Bool, true, false, ◌||◌, Option, none, some}
use github.Base.{List, [], ◌∷◌, select, if◌then◌else◌}
use github.Base.Decimal.{decimal}
use github.Json.{Value, get, obj, str, is_text, is_truthy}
use github.RedMain.Proof.Origin.{Origin, eligible, ineligible, unknown, producer_origin}
use github.RedMain.Proof.Pages.{Row, and_then, page_limit, paged}
use github.RedMain.Proof.Checks.{ended, failure_before_cancel, also, id_of, authenticated_job}

-- `(job.get("conclusion") or "unknown") if job.get("status") == "completed" else "pending"`
unfoldable pub verdict_of : Row → Value
verdict_of job =
    if is_text "completed" (get job "status")
    then if is_truthy (get job "conclusion") then get job "conclusion" else str "unknown"
    else str "pending"

-- `verdict in ("cancelled", "skipped", "pending")`
abbrev pub is_open : Value → Bool
is_open v = is_text "cancelled" v || is_text "skipped" v || is_text "pending" v

abbrev pub failure_or_unknown : Bool → Value
failure_or_unknown true = str "failure"
failure_or_unknown false = str "unknown"

abbrev pub jobs_path : String → Row → String
jobs_path repo run =
    "repos/" <> (repo <> ("/actions/runs/" <> (decimal (id_of run) <> "/jobs?filter=latest")))

abbrev pub is_named : String → Row → Bool
is_named name job = is_text name (get job "name")

module _ (api : String → Option Value) where
  -- `all(authenticated_job(run, job, repo) for job in marked)`
  unfoldable pub all_authenticated : Row → String → List Row → Option Bool
  all_authenticated run repo [] = some true
  all_authenticated run repo (job ∷ jobs) =
      and_then (authenticated_job api run job repo)
        (λ ok. also ok (all_authenticated run repo jobs))

  -- The failures that a run marked before it cancelled itself.
  abbrev pub marked_verdict : Row → String → List Row → Option Value
  marked_verdict run repo [] = some (str "cancelled")
  marked_verdict run repo (job ∷ jobs) =
      and_then (all_authenticated run repo (job ∷ jobs)) (λ ok. some (failure_or_unknown ok))

  -- The end of the function: a run that was cancelled is read from its marked jobs.
  unfoldable pub run_verdict : Row → String → List Row → Value → Option Value
  unfolding all_authenticated
  run_verdict run repo jobs verdict =
      if ended "cancelled" run
      then marked_verdict run repo (select failure_before_cancel jobs)
      else some verdict

  abbrev pub aggregate_verdict : Row → String → List Row → Row → Bool → Option Value
  aggregate_verdict run repo jobs job false = some (str "unknown")
  aggregate_verdict run repo jobs job true =
      if is_open (verdict_of job)
      then run_verdict run repo jobs (verdict_of job)
      else some (verdict_of job)

  -- The aggregates: more than one says nothing, and one must be authenticated.
  unfoldable pub jobs_verdict : Row → String → List Row → List Row → Option Value
  unfolding run_verdict
  jobs_verdict run repo jobs [] = run_verdict run repo jobs (str "unknown")
  jobs_verdict run repo jobs (job ∷ []) =
      and_then (authenticated_job api run job repo) (aggregate_verdict run repo jobs job)
  jobs_verdict run repo jobs _ = some (str "unknown")

  unfoldable pub eligible_verdict : Row → String → String → Option Value
  unfolding jobs_verdict
  eligible_verdict run repo name =
      and_then (paged api (jobs_path repo run) "jobs" page_limit)
        (λ jobs. jobs_verdict run repo jobs (select (is_named name) jobs))

  abbrev pub origin_verdict : Origin → Value → String → String → Option Value
  origin_verdict eligible (obj run) repo name = eligible_verdict run repo name
  origin_verdict eligible _ repo name = some (str "unknown")
  origin_verdict ineligible run repo name = some (str "ineligible")
  origin_verdict unknown run repo name = some (str "unknown")

  unfoldable pub checked_verdict : Value → String → String → String → String → Option Value
  unfolding eligible_verdict
  checked_verdict run repo branch workflow name =
      origin_verdict (producer_origin run repo branch workflow none) run repo name
