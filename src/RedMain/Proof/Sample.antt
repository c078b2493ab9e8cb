-- ===== src/RedMain/Proof/Sample.antt =====
-- A small history of runs, as the API gives it: the data of the tests.
use github.Base.{ℕ, String, ◌<>◌, Option, some, ◌==◌, string_eq, if◌then◌else◌}
use github.Json.{Value, Fields, no_fields, field, no_items, item, obj, str, int, nat, arr}

abbrev pub sha : String
sha = "0123456789abcdef0123456789abcdef01234567"

abbrev pub id : ℕ → Value
id n = int (nat n)

abbrev pub identity : Value
identity = obj (field "id" (id 9) (field "full_name" (str "o/r") no_fields))

abbrev pub run_row : String → Fields
run_row conclusion = field "id" (id 1) (
    field "workflow_id" (id 2) (
      field "check_suite_id" (id 3) (
        field "run_attempt" (id 1) (
          field "repository" identity (
            field "head_repository" identity (
              field "event" (str "push") (
                field "head_branch" (str "main") (
                  field "path" (str ".github/workflows/verify.yml") (
                    field "head_sha" (str sha) (
                      field "status" (str "completed")
                        (field "conclusion" (str conclusion) no_fields)))))))))))

abbrev pub step : String → String → Value
step name conclusion = obj (
    field "name" (str name)
      (field "status" (str "completed") (field "conclusion" (str conclusion) no_fields)))

abbrev pub job_row : String → String → Fields
job_row name conclusion = field "id" (id 5) (
    field "name" (str name) (
      field "run_id" (id 1) (
        field "run_attempt" (id 1) (
          field "head_sha" (str sha) (
            field "check_run_url" (str "https://api.github.com/repos/o/r/check-runs/77") (
              field "status" (str "completed") (
                field "conclusion" (str conclusion) (
                  field "steps"
                    (arr (
                      item (step "build" "failure")
                        (item (step "Cancel failed current run" "success") no_items)))
                    no_fields))))))))

abbrev pub check_row : String → String → Fields
check_row name conclusion = field "id" (id 77) (
    field "app" (obj (field "id" (id 15368) (field "slug" (str "github-actions") no_fields))) (
      field "head_sha" (str sha) (
        field "name" (str name) (
          field "check_suite" (obj (field "id" (id 3) no_fields)) (
            field "details_url" (str "https://github.com/o/r/actions/runs/1/job/5") (
              field "status" (str "completed") (field "conclusion" (str conclusion) no_fields)))))))

-- An API with one run, one job and its check.
abbrev pub api : String → String → String → String → Option Value
api name conclusion of_run path =
    if path == "repos/o/r/check-runs/77"
    then some (obj (check_row name conclusion))
    else if path == "repos/o/r/actions/runs/1"
    then some (obj (run_row of_run))
    else if path == "repos/o/r/actions/runs/1/jobs?filter=latest&per_page=100&page=1"
    then some (
        obj (
          field "total_count" (id 1)
            (field "jobs" (arr (item (obj (job_row name conclusion)) no_items)) no_fields)))
    else some (
        obj (
          field "total_count" (id 1)
            (field "workflow_runs" (arr (item (obj (run_row of_run)) no_items)) no_fields)))

-- The same API, with no run of the other commit.
abbrev pub verified_api : String → String → Option Value
verified_api conclusion path =
    if path
      == "repos/o/r/actions/workflows/verify.yml/runs?head_sha=ffffffffffffffffffffffffffffffffffffffff&per_page=100&page=1"
    then some (obj (field "total_count" (id 0) (field "workflow_runs" (arr no_items) no_fields)))
    else api "verified" conclusion conclusion path

abbrev pub query : String → String → String → String
query event branch head = "head_sha=" <> head

abbrev pub other : String
other = "ffffffffffffffffffffffffffffffffffffffff"
