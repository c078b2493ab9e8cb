-- ===== src/MainRedGate/Tests.antt =====
-- Runs of the red-trunk gate, and its theorems at concrete data.
use github.Base.{
  library, eq_iff, ℕ, zero, suc, String, ◌≡◌, ◌≢◌, refl, ◌↔◌, ◌⊎◌, inl, true, false, Option, some,
  none, List, [], ◌∷◌, arith, map, take, first, All,
}
use github.Base.Text.{starts_with, lower_starts_with}
use github.Base.Pieces.{concat}
use github.MainRedGate.Trunk.{PushRun, red, trunk_state, newer_unfinished_run}
use github.MainRedGate.Decided.{
  Decided, is_unfinished, trunk_state-Decided, newer_unfinished_run-first,
}
use github.MainRedGate.WayBack.{Pull, is_way_back, open_way_back, decide}
use github.MainRedGate.Reverts.{IsWayBack}
use github.MainRedGate.Admits.{is_way_back-none_iff, open_way_back-none_iff, decide-refuses_iff}
use github.MainRedGate.Outcome.{returned}
use github.MainRedGate.History.{Job, Api, find_verdict, is_named, read_runs, Ancestry}
use github.MainRedGate.Reference.{verdicts, find_verdict-first}
use github.MainRedGate.Pages.{read_runs-trunk}
use github.MainRedGate.Hold.{Reading, Settings, main}
use github.MainRedGate.Refusal.{Refused}
use github.MainRedGate.Gate.{main-Fair, main-observe}

abbrev push_run : ℕ → String → Option String → PushRun
push_run id status conclusion = record {
  id = id;
  event = some "push";
  head_branch = some "main";
  head_sha = "abc";
  status = some status;
  conclusion = conclusion;
  html_url = none;
}

-- A run that has not finished, a cancelled one, a failure, and a success.
abbrev runs : List PushRun
runs =
    push_run 4 "in_progress" none
    ∷ push_run 3 "completed" (some "cancelled")
    ∷ push_run 2 "completed" (some "failure")
    ∷ push_run 1 "completed" (some "success")
    ∷ []

trunk_test : trunk_state runs "main" ≡ red 2 (push_run 2 "completed" (some "failure"))
unfolding trunk_state library
trunk_test = refl

newer_test : newer_unfinished_run runs "main" (some 2) ≡ some (push_run 4 "in_progress" none)
unfolding newer_unfinished_run library
newer_test = refl

abbrev pull : List (Option String) → String → Pull
pull labels title = record {
  number = 7;
  labels = labels;
  head_ref = some "feature";
  title = some title;
  draft = false;
}

revert_test : is_way_back (pull [] " Revert \"x\"") "fix" ≡ some "revert"
unfolding is_way_back starts_with lower_starts_with library
revert_test = refl

open_test :
    open_way_back (pull [] "x" ∷ pull (some "fix" ∷ []) "y" ∷ []) "fix"
    ≡ some "pull request #7 (labelled fix) is open"
unfolding open_way_back is_way_back starts_with lower_starts_with library
open_test = refl

abbrev reading : List PushRun → Reading
reading seen = record {
  duration = 1;
  runs = returned seen;
  pull = returned (pull [] "x");
  pulls = returned [];
}

-- The newer run is in progress for two readings, then passes.
abbrev schedule : ℕ → Reading
schedule zero = reading runs
schedule (suc zero) = reading runs
schedule (suc (suc n)) = reading (push_run 4 "completed" (some "success") ∷ runs)

abbrev settings : String → Settings
settings mode = record {
  branch = "main";
  workflow = "ci.yml";
  mode = mode;
  fix_label = "fix";
  hold = some 180;
  number = some 7;
}

hold_test : main (settings "enforce") schedule 200 ≡ some 0
unfolding main trunk_state newer_unfinished_run is_way_back starts_with lower_starts_with library
hold_test = refl

-- The newer run stays in progress until the hold is over.
expired_test : main (settings "enforce") (λ i. reading runs) 200 ≡ some 1
unfolding main trunk_state newer_unfinished_run is_way_back starts_with lower_starts_with library
expired_test = refl

trunk_state-Decided_example : Decided "main" runs 0 (trunk_state runs "main")
trunk_state-Decided_example = trunk_state-Decided runs "main"

newer_unfinished_run-first_example :
    newer_unfinished_run runs "main" (some 2) ≡ first (is_unfinished "main") (take 2 runs)
newer_unfinished_run-first_example = newer_unfinished_run-first runs "main" 2

is_way_back-none_iff_example :
    (is_way_back (pull (some "fix" ∷ []) "x") "fix" ≡ none)
    ↔ (¬ IsWayBack (pull (some "fix" ∷ []) "x") "fix")
is_way_back-none_iff_example = is_way_back-none_iff (pull (some "fix" ∷ []) "x") "fix"

open_way_back-none_iff_example :
    (open_way_back (pull [] "x" ∷ []) "fix" ≡ none)
    ↔ All (λ p. (p.draft ≡ true) ⊎ (is_way_back p "fix" ≡ none)) (pull [] "x" ∷ [])
open_way_back-none_iff_example = open_way_back-none_iff (pull [] "x" ∷ []) "fix"

decide-refuses_iff_example :
    ((decide (trunk_state runs "main") (some (pull [] "x")) "enforce" "fix" (some "m")).0 ≡ false)
    ↔ ((place : ℕ) × (run : PushRun) × (p : Pull) × (trunk_state runs "main" ≡ red place run)
        × (some (pull [] "x") ≡ some p)
        × (is_way_back p "fix" ≡ none)
        × (◌≢◌ {A = Option String} (some "m") none)
        × (◌≡◌ {A = String} "enforce" "enforce"))
decide-refuses_iff_example =
    decide-refuses_iff (trunk_state runs "main") (some (pull [] "x")) "enforce" "fix" (some "m")

abbrev job : String → String → Job
job name conclusion = record {
  name = some name;
  status = some "completed";
  conclusion = some conclusion;
}

abbrev jobs : List (List Job)
jobs = (job "lint" "success" ∷ job "verify" "failure" ∷ []) ∷ []

find_verdict-first_example :
    find_verdict "verify" (map returned jobs) ≡ returned (first (is_named "verify") (concat jobs))
find_verdict-first_example = find_verdict-first "verify" jobs (inl (omega arith, refl))

abbrev api : Api
api = record {
  history = map returned (runs ∷ []);
  compare = λ sha. returned (some "ahead");
  jobs = λ id. map returned jobs;
}

read_test :
    read_runs api "main" "base" "verify" []
    ≡ returned (push_run 4 "completed" (some "failure") ∷ [], ("abc", true) ∷ [])
unfolding read_runs trunk_state library
read_test = refl

read_runs-trunk_example :
    (selected : List PushRun) × (after : Ancestry) × (read_runs api "main" "base" "verify" []
      ≡ returned (selected, after))
    × (trunk_state selected "main"
        ≡ trunk_state (verdicts api "main" "base" "verify" (concat (runs ∷ []))) "main")
read_runs-trunk_example =
    read_runs-trunk api "main" "base" "verify"
      (
        λ sha. (some "ahead", refl),
        λ id. (
          first (is_named "verify") (concat jobs),
          find_verdict-first "verify" jobs (inl (omega arith, refl)),
        ),
      )
      (runs ∷ []) refl (inl (omega arith, refl)) (omega arith)

main-Fair_example :
    (main (settings "enforce") schedule 200 ≡ some 0)
    ⊎ ((main (settings "enforce") schedule 200 ≡ some 1) × Refused (settings "enforce") schedule)
main-Fair_example = main-Fair (settings "enforce") schedule 200 (omega arith)

observe_is_not_enforce : false ≡ true → ⊥
observe_is_not_enforce e = cc

main-observe_example : main (settings "observe") schedule 200 ≡ some 0
main-observe_example =
    main-observe (settings "observe") schedule 200 180 (omega arith) refl
      (λ e. observe_is_not_enforce ((eq_iff "observe" "enforce").1 e))
