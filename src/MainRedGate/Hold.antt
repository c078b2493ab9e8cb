-- ===== src/MainRedGate/Hold.antt =====
-- `main` of main-red-gate/main_red_gate.py for a merge group: the decision, and the hold before it.
-- What the API answers is given by a schedule, one round for each reading of the history: a round's
-- duration is the time that its readings take. Times are whole seconds.
use github.Base.{ℕ, zero, suc, ◌+◌, ◌-◌, String, ◌<>◌, Bool, true, false, Option, none, some}
use github.Base.{List, leb, min, ◌==◌, nat_eq, string_eq, if◌then◌else◌}
use github.MainRedGate.Trunk.{PushRun, Trunk, red, trunk_state, newer_unfinished_run}
use github.MainRedGate.WayBack.{Pull, is_way_back, open_way_back, decide}
use github.MainRedGate.Outcome.{Outcome, returned, expired, incomplete, unreadable}

-- What a round's readings come to: the runs of `read_runs`, the merge group's pull request, and the
-- open pull requests.
pub record Reading : Type 0 where
  pub duration : ℕ
  pub runs : Outcome (List PushRun)
  pub pull : Outcome Pull
  pub pulls : Outcome (List Pull)

-- The environment of the job; `hold` is none where HOLD_MINUTES is invalid, and `number` none where
-- the merge group's ref names no pull request.
pub record Settings : Type 0 where
  pub branch : String
  pub workflow : String
  pub mode : String
  pub fix_label : String
  pub hold : Option ℕ
  pub number : Option ℕ

abbrev pub status_of : Bool → ℕ
status_of true = 0
status_of false = 1

-- The pull request as main reads it: none where the ref names none or it cannot be read.
abbrev pub pull_of : Option ℕ → Outcome Pull → Option Pull
pull_of (some number) (returned pull) = some pull
pull_of _ _ = none

-- The pull request that may be admitted although the history is not complete.
abbrev pub may_recover : Option String → ℕ
may_recover (some why) = 0
may_recover none = 1

abbrev pub recovery : String → Option Pull → ℕ
recovery fix_label none = 1
recovery fix_label (some pull) = may_recover (is_way_back pull fix_label)

-- `incomplete_history`
unfoldable pub incomplete_history : Settings → Outcome Pull → ℕ
incomplete_history s pull =
    if s.mode == "enforce" then recovery s.fix_label (pull_of s.number pull) else 0

-- The last lines of main: the exit status of the decision on a red trunk.
unfoldable pub finish : Settings → ℕ → PushRun → Pull → Option String → Option ℕ
finish s place run pull motion =
    some (status_of (decide (red place run) (some pull) s.mode s.fix_label motion).0)

-- The reading of the open pull requests before that.
unfoldable pub list_open : Settings → ℕ → PushRun → Pull → Outcome (List Pull) → Option ℕ
unfolding finish
list_open s place run pull (returned pulls) =
    finish s place run pull (open_way_back pulls s.fix_label)
list_open s place run pull _ = some 0

-- One pass through the hold, by what it reads in turn; `rest` is what the next pass answers, and
-- `initial` the id of the run that was red before the hold.
unfoldable pub after_running :
    Settings → Reading → Option ℕ → ℕ → PushRun → Pull → Option PushRun → Option ℕ
unfolding list_open
after_running s reading rest place run pull (some running) = rest
after_running s reading rest place run pull none = list_open s place run pull reading.pulls

unfoldable pub after_pull :
    Settings → ℕ → Reading → Option ℕ → List PushRun → ℕ → PushRun → Pull → Option String → Option ℕ
unfolding after_running
after_pull s initial reading rest runs place run pull (some why) = some 0
after_pull s initial reading rest runs place run pull none =
    if run.id == initial
    then after_running s reading rest place run pull
        (newer_unfinished_run runs s.branch (some place))
    else some 1

unfoldable pub after_red :
    Settings → ℕ → Reading → Option ℕ → List PushRun → ℕ → PushRun → Outcome Pull → Option ℕ
unfolding after_pull
after_red s initial reading rest runs place run expired = some 1
after_red s initial reading rest runs place run (returned pull) =
    after_pull s initial reading rest runs place run pull (is_way_back pull s.fix_label)
after_red s initial reading rest runs place run _ = some 0

unfoldable pub after_state : Settings → ℕ → Reading → Option ℕ → List PushRun → Trunk → Option ℕ
unfolding after_red
after_state s initial reading rest runs (red place run) =
    after_red s initial reading rest runs place run reading.pull
after_state s initial reading rest runs _ = some 0

unfoldable pub after_runs : Settings → ℕ → Reading → Option ℕ → Outcome (List PushRun) → Option ℕ
unfolding after_state incomplete_history
after_runs s initial reading rest (returned runs) =
    after_state s initial reading rest runs (trunk_state runs s.branch)
after_runs s initial reading rest expired = some 1
after_runs s initial reading rest incomplete = some (incomplete_history s reading.pull)
after_runs s initial reading rest unreadable = some 0

-- The `while running` of the hold, from round `i` at the time `now`; `none` means that the fuel ran
-- out.
unfoldable pub hold_loop : Settings → (ℕ → Reading) → ℕ → ℕ → ℕ → ℕ → ℕ → Option ℕ
unfolding after_runs
hold_loop s schedule deadline initial zero i now = none
hold_loop s schedule deadline initial (suc fuel) i now =
    let woken = now + min 60 (deadline - now) in
    let rest = hold_loop s schedule deadline initial fuel (suc i) (woken + (schedule i).duration) in
    if leb deadline now then some 1 else after_runs s initial (schedule i) rest (schedule i).runs

-- The first reading, before any hold; `held` is what the hold answers.
abbrev shown : Option String → String
shown none = "None"
shown (some url) = url

unfoldable pub first_running :
    Settings → Reading → Option ℕ → ℕ → PushRun → Pull → Option PushRun → Option ℕ
unfolding finish list_open
first_running s reading held place run pull none = list_open s place run pull reading.pulls
first_running s reading held place run pull (some running) =
    if s.mode == "enforce"
    then held
    else finish s place run pull (
        some (
          "a newer "
          <> (s.workflow <> (" run is still running (" <> (shown running.html_url <> ")")))))

unfoldable pub first_pull :
    Settings → Reading → Option ℕ → List PushRun → ℕ → PushRun → Pull → Option String → Option ℕ
unfolding first_running
first_pull s reading held runs place run pull (some why) =
    some (status_of (decide (red place run) (some pull) s.mode s.fix_label none).0)
first_pull s reading held runs place run pull none =
    first_running s reading held place run pull (newer_unfinished_run runs s.branch (some place))

unfoldable pub first_red :
    Settings → Reading → Option ℕ → List PushRun → ℕ → PushRun → Option Pull → Option ℕ
unfolding first_pull
first_red s reading held runs place run none =
    some (status_of (decide (red place run) none s.mode s.fix_label none).0)
first_red s reading held runs place run (some pull) =
    first_pull s reading held runs place run pull (is_way_back pull s.fix_label)

-- The hold begins at time 0 with the second reading.
unfoldable pub first_state : Settings → (ℕ → Reading) → ℕ → ℕ → List PushRun → Trunk → Option ℕ
unfolding first_red hold_loop
first_state s schedule hold fuel runs (red place run) =
    first_red s (schedule 0) (hold_loop s schedule hold run.id fuel 1 0) runs place run
      (pull_of s.number (schedule 0).pull)
first_state s schedule hold fuel runs _ = some 0

unfoldable pub first_runs : Settings → (ℕ → Reading) → ℕ → ℕ → Outcome (List PushRun) → Option ℕ
unfolding first_state incomplete_history
first_runs s schedule hold fuel (returned runs) =
    first_state s schedule hold fuel runs (trunk_state runs s.branch)
first_runs s schedule hold fuel incomplete = some (incomplete_history s (schedule 0).pull)
first_runs s schedule hold fuel _ = some 0

unfoldable pub main : Settings → (ℕ → Reading) → ℕ → Option ℕ
unfolding first_runs
main s schedule fuel = elim s.hold [
  | none ↦ some 1
  | some hold ↦ first_runs s schedule hold fuel (schedule 0).runs
]
