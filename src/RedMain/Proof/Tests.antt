-- ===== src/RedMain/Proof/Tests.antt =====
-- Runs of proof.py, and its theorems at concrete data.
use github.Base.{
  library, ◌<>◌, ℕ, ◌≡◌, ◌⊎◌, refl, true, some, none, List, [], ◌∷◌, map, select, All, string_eq,
}
use github.Base.Text.{starts_with, has_control}
use github.Base.Decimal.{positive_in}
use github.Json.{set_field, get, find, same, obj, str}
use github.RedMain.Proof.Origin.{
  producer_origin, eligible, is_full_name, is_event, is_workflow_path, is_sha,
}
use github.RedMain.Proof.Pages.{paged, page_limit, Row}
use github.RedMain.Proof.Checks.{failure_before_cancel, authenticated_job, ended}
use github.RedMain.Proof.Verdict.{checked_verdict, verdict_of, is_named}
use github.RedMain.Proof.Proven.{
  JobsRead, Aggregate, AllMarked, checked_verdict-success, checked_verdict-failure,
}
use github.RedMain.Proof.Runs.{sha_verdict, last_verified}
use github.RedMain.Proof.Newest.{FirstVerified, last_verified-FirstVerified}
use github.RedMain.Proof.Counted.{IsComplete, paged-IsComplete}
use github.RedMain.Proof.Failed.{failed_jobs, run_path, is_pending, is_settled, normalize}
use github.RedMain.Proof.Sample.{sha, run_row, job_row, api, verified_api, query, other}
use github.RedMain.Proof.Complete.{counts, as_failed, failed_jobs-Complete}

origin_test : producer_origin (obj (run_row "success")) "o/r" "main" "verify.yml" none ≡ eligible
unfolding producer_origin starts_with get find is_full_name is_event is_workflow_path is_sha library
origin_test = refl

success_test :
    checked_verdict
      (api "verified" "success" "success")
      (obj (run_row "success"))
      "o/r"
      "main"
      "verify.yml"
      "verified"
    ≡ some (str "success")
unfolding checked_verdict producer_origin starts_with get find same is_full_name is_event
    is_workflow_path is_sha paged authenticated_job failure_before_cancel verdict_of library
success_test = refl

checked_verdict-success_example :
    (row : Row) × (jobs : List Row) × JobsRead
      (api "verified" "success" "success")
      "o/r"
      "main"
      "verify.yml"
      "verified"
      (obj (run_row "success"))
      row
      jobs
    × Aggregate
        (api "verified" "success" "success")
        row
        "o/r"
        jobs
        (select (is_named "verified") jobs)
        "success"
checked_verdict-success_example =
    checked_verdict-success (api "verified" "success" "success") "o/r" "main" "verify.yml"
      "verified" (obj (run_row "success")) success_test

failure_test :
    checked_verdict
      (api "build" "cancelled" "cancelled")
      (obj (run_row "cancelled"))
      "o/r"
      "main"
      "verify.yml"
      "verified"
    ≡ some (str "failure")
unfolding checked_verdict producer_origin starts_with get find same is_full_name is_event
    is_workflow_path is_sha paged authenticated_job failure_before_cancel verdict_of library
failure_test = refl

checked_verdict-failure_example :
    (row : Row) × (jobs : List Row) × JobsRead
      (api "build" "cancelled" "cancelled")
      "o/r"
      "main"
      "verify.yml"
      "verified"
      (obj (run_row "cancelled"))
      row
      jobs
    × (Aggregate
          (api "build" "cancelled" "cancelled")
          row
          "o/r"
          jobs
          (select (is_named "verified") jobs)
          "failure"
        ⊎ ((ended "cancelled" row ≡ true)
            × AllMarked (api "build" "cancelled" "cancelled") row "o/r" jobs))
checked_verdict-failure_example =
    checked_verdict-failure (api "build" "cancelled" "cancelled") "o/r" "main" "verify.yml"
      "verified" (obj (run_row "cancelled")) failure_test

failed_test :
    failed_jobs (api "build" "cancelled" "cancelled") "o/r" "main" "verify.yml" "1"
    ≡ some (normalize (job_row "build" "cancelled") ∷ [])
unfolding failed_jobs has_control positive_in producer_origin starts_with get find same is_full_name
    is_event is_workflow_path is_sha paged authenticated_job failure_before_cancel normalize library
    set_field
failed_test = refl

failed_jobs-Complete_example :
    (n : ℕ) × (positive_in "1" ≡ some n)
    × (jobs : List Row) × (paged
          (api "build" "cancelled" "cancelled")
          (run_path (api "build" "cancelled" "cancelled") "o/r" "main" "verify.yml" n
            <> "/jobs?filter=latest")
          "jobs"
          page_limit
        ≡ some jobs)
    × (normalize (job_row "build" "cancelled") ∷ [] ≡ map as_failed (select counts jobs))
    × All (λ job. (is_pending job ≡ true) ⊎ (is_settled job ≡ true)) jobs
failed_jobs-Complete_example =
    failed_jobs-Complete (api "build" "cancelled" "cancelled") "o/r" "main" "verify.yml" "1"
      (normalize (job_row "build" "cancelled") ∷ []) failed_test

paged_test :
    paged
      (api "build" "cancelled" "cancelled")
      "repos/o/r/actions/runs/1/jobs?filter=latest"
      "jobs"
      page_limit
    ≡ some (job_row "build" "cancelled" ∷ [])
unfolding paged get find library
paged_test = refl

paged-IsComplete_example :
    IsComplete
      (api "build" "cancelled" "cancelled")
      "repos/o/r/actions/runs/1/jobs?filter=latest"
      "jobs"
      page_limit
      (job_row "build" "cancelled" ∷ [])
paged-IsComplete_example =
    paged-IsComplete (api "build" "cancelled" "cancelled")
      "repos/o/r/actions/runs/1/jobs?filter=latest" "jobs" page_limit
      (job_row "build" "cancelled" ∷ []) paged_test

verified_test :
    last_verified
      (verified_api "success")
      query
      "o/r"
      "main"
      "verify.yml"
      "verified"
      (other ∷ sha ∷ [])
    ≡ some sha
unfolding last_verified sha_verdict checked_verdict producer_origin starts_with get find same
    is_full_name is_event is_workflow_path is_sha paged authenticated_job failure_before_cancel
    verdict_of library
verified_test = refl

last_verified-FirstVerified_example :
    FirstVerified
      (verified_api "success")
      query
      "o/r"
      "main"
      "verify.yml"
      "verified"
      (other ∷ sha ∷ [])
      sha
last_verified-FirstVerified_example =
    last_verified-FirstVerified (verified_api "success") query "o/r" "main" "verify.yml" "verified"
      (other ∷ sha ∷ []) sha verified_test
