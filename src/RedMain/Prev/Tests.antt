-- ===== src/RedMain/Prev/Tests.antt =====
-- A run of prev.py, and its theorem at concrete data.
use github.Base.{
  ℕ, library, String, ◌≡◌, refl, true, Option, some, none, List, ◌==◌, string_eq, if◌then◌else◌,
}
use github.Json.{Value, no_fields, field, no_items, item, get, find, obj, str, int, nat, arr}
use github.RedMain.Proof.Pages.{Row}
use github.RedMain.Window.{Moment}
use github.RedMain.Window.{timestamp as moment_of}
use github.RedMain.Prev.{timestamp, main}
use github.RedMain.Prev.Earlier.{Lists, EarlierRuns}
use github.RedMain.Prev.Decisive.{FirstDecisive, main-FirstDecisive}

abbrev at : String → Option Moment
at value =
    if value == "t1"
    then some (record { has_zone = true; instant = 1 })
    else if value == "t2"
    then some (record { has_zone = true; instant = 2 })
    else some (record { has_zone = true; instant = 3 })

abbrev row : String → String → Row
row created conclusion = field "id" (int (nat 7)) (
    field "status" (str "completed")
      (field "created_at" (str created) (field "conclusion" (str conclusion) no_fields)))

abbrev body : Value
body = obj (
    field "total_count" (int (nat 2)) (
      field "workflow_runs"
        (arr (item (obj (row "t1" "failure")) (item (obj (row "t2" "cancelled")) no_items)))
        no_fields))

main_test :
    main at (λ path. none) none "t3" body
    ≡ some (some (record { run = row "t1" "failure"; conclusion = str "failure" }))
unfolding main timestamp moment_of get find library
main_test = refl

main-FirstDecisive_example :
    (before : ℕ) × (rows : List Value) × (runs : List Row) × (timestamp at (str "t3") ≡ some before)
    × Lists body rows
    × EarlierRuns at before rows runs
    × FirstDecisive at
        (λ path. none)
        none
        runs
        (some (record { run = row "t1" "failure"; conclusion = str "failure" }))
main-FirstDecisive_example =
    main-FirstDecisive at (λ path. none) none "t3" body
      (some (record { run = row "t1" "failure"; conclusion = str "failure" })) main_test
