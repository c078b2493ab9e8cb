-- ===== src/RedMain/Tests.antt =====
-- Runs of confirm.py and window.py, and their theorems at concrete data.
use mathlib.Core.List.{Memᴰ}
use github.Base.{
  String, zero, suc, if◌then◌else◌, ◌==◌, string_eq, ◌≡◌, refl, ◌↔◌, true, Option, some, none, List,
  [], ◌∷◌, take, ℕ,
}
use github.RedMain.Units.{Row, read_confirm}
use github.RedMain.Confirm.{Answer, answer, confirmed, main}
use github.RedMain.Confirm.Yes.{Explains, InBoth, answer-Explains, Memᴰ-confirmed_iff}
use github.RedMain.Window.{
  Evidence, clears, find_window, judge, Run, Moment, timestamp, earlier_runs,
}
use github.RedMain.Window.Judge.{Judged, judge-Judged}
use github.RedMain.Window.Search.{Cleared, Walked, clears_iff, find_window-newest}
use github.RedMain.Window.History.{History, earlier_runs-History}
use github.RedMain.Confirm.{common, units, name_of, jobs}
use github.Base.{library}

abbrev test : String → String → Row
test name job = record { kind = "test"; name = name; job = job }

abbrev lane : String → String → Row
lane name job = record { kind = "lane"; name = name; job = job }

abbrev before : List Row
before = test "b" "unit" ∷ lane "failure at Lint" "lint" ∷ test "a" "unit" ∷ []

abbrev now : List Row
now = test "c" "unit" ∷ lane "failure at Lint" "lint" ∷ []

confirm_test :
    main "failure"
      (some ("test\tb\tunit" ∷ "bad line" ∷ "lane\tx\tverified" ∷ []))
      (some ("test\tb\tunit" ∷ []))
      "verified"
    ≡ some ("yes the same unit failed on both runs: b (unit)", some (test "b" "unit" ∷ []))
unfolding main read_confirm units common name_of jobs library
confirm_test = refl

not_red_test :
    main "success" none none "verified" ≡ some ("no the previous completed run was 'success'", none)
unfolding main read_confirm units common name_of jobs library
not_red_test = refl

answer-Explains_example :
    (a : Answer) × (answer "failure" before now ≡ some a) × Explains "failure" before now a
answer-Explains_example = answer-Explains "failure" before now

Memᴰ-confirmed_iff_example :
    Memᴰ (test "b" "unit") (confirmed before now) ↔ InBoth before now (test "b" "unit")
Memᴰ-confirmed_iff_example = Memᴰ-confirmed_iff before now (test "b" "unit")

-- Runs are numbers here: the newest two skipped the job.
abbrev evidence : ℕ → Evidence
evidence zero = record { jobs = []; failing = []; passing = []; covered = [] }
evidence (suc zero) = record {
  jobs = ("unit", some "skipped") ∷ [];
  failing = [];
  passing = [];
  covered = [];
}
evidence n = record {
  jobs = ("unit", some "failure") ∷ ("lint", some "failure") ∷ [];
  failing = ("a", "unit") ∷ [];
  passing = ("b", "unit") ∷ [];
  covered = "unit" ∷ [];
}

window_test :
    find_window before evidence (0 ∷ 1 ∷ 2 ∷ 3 ∷ []) 100
    ≡ record { run = some 2; cleared = test "b" "unit" ∷ []; read = 3 }
unfolding find_window clears library
window_test = refl

find_window-newest_example :
    Walked before evidence
      (take 100 (0 ∷ 1 ∷ 2 ∷ []))
      0
      (find_window before evidence (0 ∷ 1 ∷ 2 ∷ []) 100)
find_window-newest_example = find_window-newest before evidence (0 ∷ 1 ∷ 2 ∷ []) 100

clears_iff_example :
    (clears (test "b" "unit") (evidence 2) ≡ true) ↔ Cleared (test "b" "unit") (evidence 2)
clears_iff_example = clears_iff (test "b" "unit") (evidence 2)

judge-Judged_example : Judged before now (judge before now)
judge-Judged_example = judge-Judged before now

-- Times are numbers of seconds here, given for three texts.
abbrev clock : String → Option Moment
clock text =
    if text == "2026-01-01T00:00:01+00:00"
    then some (record { has_zone = true; instant = 1 })
    else if text == "2026-01-01T00:00:02+00:00"
    then some (record { has_zone = true; instant = 2 })
    else if text == "2026-01-01T00:00:03+00:00"
    then some (record { has_zone = true; instant = 3 })
    else none

abbrev push : ℕ → String → String → Run
push id conclusion at = record {
  id = id;
  status = some "completed";
  conclusion = some conclusion;
  created_at = some at;
}

abbrev rows : List Run
rows =
    push 5 "success" "2026-01-01T00:00:01Z"
    ∷ push 9 "failure" "2026-01-01T00:00:03Z"
    ∷ push 7 "skipped" "2026-01-01T00:00:02Z"
    ∷ push 8 "failure" "2026-01-01T00:00:02Z"
    ∷ []

abbrev earlier : List Run
earlier = push 8 "failure" "2026-01-01T00:00:02Z" ∷ push 5 "success" "2026-01-01T00:00:01Z" ∷ []

earlier_test : earlier_runs clock (λ run. true) rows (some "2026-01-01T00:00:03Z") ≡ some earlier
unfolding earlier_runs library
earlier_test = refl

earlier_runs-History_example :
    (before : ℕ) × (timestamp clock (some "2026-01-01T00:00:03Z") ≡ some before)
    × History clock (λ run. true) before rows earlier
earlier_runs-History_example =
    earlier_runs-History clock (λ run. true) rows earlier (some "2026-01-01T00:00:03Z") earlier_test
