-- ===== src/CiOkPolling/Tests.antt =====
-- Runs of the polling gate, and its theorems at concrete data.
use mathlib.Core.List.{Memᴰ}
use github.Base.{
  ◌<◌, ◌+◌, library, ℕ, zero, suc, String, ◌≡◌, refl, ◌↔◌, true, false, some, none, List, [], ◌∷◌,
  arith,
}
use github.Base.Pieces.{drop}
use github.CiOkPolling.Runs.{
  CheckRun, started, later, latest_at, current, latest_runs, suite_events,
}
use github.CiOkPolling.Evaluate.{pass, fail, pending, Inputs, relevant, evaluate}
use github.CiOkPolling.Verdict.{Passes, Waiting, evaluate-pass_iff, evaluate-pending_iff}
use github.CiOkPolling.Latest.{Latest, Counts, latest_runs-Latest}
use github.CiOkPolling.Fetch.{fetch, served, fetch-served}
use github.CiOkPolling.Loop.{Round, read, unreadable, main, round}
use github.CiOkPolling.Stable.{PassedTwice, main-Stable}

abbrev check : String → String → String → ℕ → CheckRun
check name conclusion at id = record {
  name = name;
  status = some "completed";
  conclusion = some conclusion;
  app_slug = some (some "github-actions");
  started_at = some at;
  id = some id;
  suite = some id;
}

-- A cancelled run of `test`, the newer run that replaced it, and a skipped one.
abbrev runs : List CheckRun
runs =
    check "test" "cancelled" "2026-01-01T00:00:00Z" 1
    ∷ check "test" "success" "2026-01-01T00:05:00Z" 2
    ∷ check "docs" "skipped" "2026-01-01T00:00:00Z" 3
    ∷ []

abbrev inputs : List CheckRun → Inputs
inputs rs = record {
  runs = rs;
  ignore = "ci-ok" ∷ [];
  actions_only = true;
  suites = [];
  required = "test" ∷ [];
  allow_none = false;
  suite_events = none;
  event_name = "pull_request";
  suite_names = [];
}

latest_test :
    latest_runs runs none
    ≡ check "test" "success" "2026-01-01T00:05:00Z" 2
      ∷ check "docs" "skipped" "2026-01-01T00:00:00Z" 3
      ∷ []
unfolding latest_runs started later library
latest_test = refl

pass_test : evaluate (inputs runs) ≡ (pass, "docs" ∷ "test" ∷ [])
unfolding evaluate latest_runs started later library
pass_test = refl

missing_test :
    evaluate (inputs (check "docs" "skipped" "" 3 ∷ [])) ≡ (fail, "test=missing (required)" ∷ [])
unfolding evaluate latest_runs started later library
missing_test = refl

events_test :
    suite_events (
      record { suite = 1; path = "a.yml"; event = "push"; created_at = "2026-01-01" }
      ∷ record { suite = 2; path = "a.yml"; event = "push"; created_at = "2026-01-02" }
      ∷ [])
    ≡ (1, "superseded") ∷ (2, "push") ∷ []
unfolding suite_events latest_at library
events_test = refl

fetch_test : fetch (served {A = ℕ} 2 (5 ∷ 6 ∷ 7 ∷ 8 ∷ [])) 5 ≡ some (5 ∷ 6 ∷ 7 ∷ 8 ∷ [])
unfolding fetch drop
fetch_test = refl

-- An unreadable round, then the same passing answer for ever.
abbrev schedule : ℕ → Round
schedule zero = record { duration = 2; reading = unreadable }
schedule (suc n) = record { duration = 2; reading = read (inputs runs) none }

loop_test : main schedule 20 1 5 100 0 ≡ some 0
unfolding main round evaluate latest_runs started later library
loop_test = refl

evaluate-pass_iff_example :
    ((evaluate (inputs runs)).0 ≡ pass) ↔ Passes (inputs runs) (relevant (inputs runs))
evaluate-pass_iff_example = evaluate-pass_iff (inputs runs)

evaluate-pending_iff_example :
    ((evaluate (inputs runs)).0 ≡ pending) ↔ Waiting (inputs runs) (relevant (inputs runs))
evaluate-pending_iff_example = evaluate-pending_iff (inputs runs)

latest_runs-Latest_example :
    Latest (current none runs) (latest_runs runs none)
    × ((r : CheckRun) → Memᴰ r (current none runs) ↔ (Memᴰ r runs × Counts none r))
latest_runs-Latest_example = latest_runs-Latest runs none

fetch-served_example : fetch (served {A = ℕ} 100 (5 ∷ 6 ∷ [])) 3 ≡ some (5 ∷ 6 ∷ [])
fetch-served_example = fetch-served {A = ℕ} 99 (5 ∷ 6 ∷ []) 3 (omega arith)

takes_time : (i : ℕ) → 0 < 0 + (schedule i).duration
takes_time zero = omega arith
takes_time (suc n) = omega arith

main-Stable_example :
    (status : ℕ) × (main schedule 0 1 5 100 0 ≡ some status) × (status ≡ 0 → PassedTwice schedule)
main-Stable_example = main-Stable schedule 0 1 5 100 0 (λ i. takes_time i) (omega arith)
