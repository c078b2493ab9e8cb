-- ===== src/CiOkPolling/Runs.antt =====
-- Check runs, check suites and workflow runs of ci-ok-polling/ci_ok.py: which of them count.
-- `none` is a key that is missing or null; `app_slug` tells the two apart.
use github.Base.{ℕ, suc, ◌+◌, String, Bool, true, false, not, ◌&&◌, ◌||◌, Option, none, some}
use github.Base.{List, [], ◌∷◌, map, ltb, any, select, contains, ◌==◌, nat_eq}
use github.Base.{string_eq, option_eq, if◌then◌else◌}
use github.Base.Sorting.{str_leb}
use github.Base.Dict.{Dict, lookup, put}

pub record CheckRun : Type 0 where
  pub name : String
  pub status : Option String
  pub conclusion : Option String
  pub app_slug : Option (Option String)
  pub started_at : Option String
  pub id : Option ℕ
  pub suite : Option ℕ

pub record Suite : Type 0 where
  pub id : ℕ
  pub status : Option String
  pub conclusion : Option String
  pub latest_check_runs_count : Option ℕ

pub record WorkflowRun : Type 0 where
  pub suite : ℕ
  pub path : String
  pub event : String
  pub created_at : String

-- `suite_events`, which is None where the workflow runs were not read
abbrev pub Events : Type 0
Events = Option (Dict ℕ String)

abbrev pub bad : List String
bad = "failure" ∷ "cancelled" ∷ "timed_out" ∷ "action_required" ∷ "startup_failure" ∷ "stale" ∷ []

abbrev pub gating_events : List String
gating_events = "pull_request" ∷ "pull_request_target" ∷ "merge_group" ∷ []

-- `value in words`
abbrev pub is_in : Option String → List String → Bool
is_in none words = false
is_in (some s) words = contains words s

abbrev pub is_completed : Option String → Bool
is_completed status = status == some "completed"

abbrev text_or : Option String → String → String
text_or none d = d
text_or (some s) d = s

abbrev number_or_zero : Option ℕ → ℕ
number_or_zero none = 0
number_or_zero (some n) = n

-- `not suite.get("latest_check_runs_count")`
abbrev pub is_empty_suite : Suite → Bool
is_empty_suite suite = number_or_zero suite.latest_check_runs_count == 0

-- `(suite_events or {}).get(id)`
unfoldable pub event_of : Events → Option ℕ → Option String
event_of (some events) (some id) = lookup events id
event_of _ _ = none

abbrev pub Started : Type 0
Started = String × ℕ

-- `_started`
unfoldable pub started : CheckRun → Started
started r = (text_or r.started_at "", number_or_zero r.id)

-- `a > b`
unfoldable pub later : Started → Started → Bool
later (s, m) (t, n) = if s == t then ltb n m else not (str_leb s t)

-- A run and its place in the list: Python's `is` compares places.
abbrev pub Placed : Type 0
Placed = ℕ × CheckRun

unfoldable pub place : ℕ → List CheckRun → List Placed
place i [] = []
place i (r ∷ runs) = (i, r) ∷ place (suc i) runs

-- One round of the loop that fills `newest`.
unfoldable pub replaces : Placed → Option Placed → Bool
replaces p none = true
replaces p (some q) = later (started p.1) (started q.1)

unfoldable pub newest : Dict String Placed → List Placed → Dict String Placed
unfolding replaces
newest d [] = d
newest d (p ∷ ps) = newest (if replaces p (lookup d p.1.name) then put d p.1.name p else d) ps

-- `newest[r["name"]] is r`
unfoldable pub is_newest : Dict String Placed → Placed → Bool
is_newest d p = elim (lookup d p.1.name) [ none ↦ false | some q ↦ q.0 == p.0 ]

-- The test of the last comprehension.
unfoldable pub stays : Dict String Placed → Placed → Bool
unfolding is_newest
stays d p = is_newest d p || not (is_in p.1.conclusion ("cancelled" ∷ "stale" ∷ []))

-- `if suite_events:` drops the runs of superseded suites; an empty dictionary drops none.
unfoldable pub current : Events → List CheckRun → List CheckRun
unfolding event_of
current events runs = select (λ r. not (event_of events r.suite == some "superseded")) runs

unfoldable pub latest_runs : List CheckRun → Events → List CheckRun
unfolding newest place stays current
latest_runs runs events =
    let placed = place 0 (current events runs) in
    map (λ p. p.1) (select (stays (newest [] placed)) placed)

abbrev count_of : Option ℕ → ℕ
count_of = number_or_zero

-- `names[r["name"]] = names.get(r["name"], 0) + 1`
unfoldable pub count_names : List CheckRun → List String → Dict String ℕ → Dict String ℕ
count_names [] ignore d = d
count_names (r ∷ runs) ignore d =
    count_names runs ignore
      (if contains ignore r.name then d else put d r.name (count_of (lookup d r.name) + 1))

unfoldable pub needs_suite_events : List CheckRun → List String → Bool
unfolding count_names
needs_suite_events runs ignore =
    let names = count_names runs ignore [] in
    any (λ r. ltb 1 (count_of (lookup names r.name)) && is_in r.conclusion bad) runs

unfoldable pub needs_workflow_events : List Suite → Bool
needs_workflow_events suites =
    any (λ s. is_empty_suite s && (not (is_completed s.status) || is_in s.conclusion bad)) suites

abbrev pub Key : Type 0
Key = String × String

abbrev pub key_beq : Key → Key → Bool
key_beq (a, b) (c, d) = a == c && b == d

-- `latest[key] = max(latest.get(key, ""), r.get("created_at", ""))`, looked up by its key
abbrev pub max_text : String → String → String
max_text s t = if str_leb t s then s else t

unfoldable pub latest_at : List WorkflowRun → Key → String
latest_at [] key = ""
latest_at (r ∷ runs) key =
    let rest = latest_at runs key in
    if key_beq (r.path, r.event) key then max_text r.created_at rest else rest

judge_event : List WorkflowRun → WorkflowRun → String
judge_event runs r =
    if str_leb (latest_at runs (r.path, r.event)) r.created_at then r.event else "superseded"

fill_events : List WorkflowRun → List WorkflowRun → Dict ℕ String → Dict ℕ String
fill_events runs [] d = d
fill_events runs (r ∷ rest) d = fill_events runs rest (put d r.suite (judge_event runs r))

unfoldable pub suite_events : List WorkflowRun → Dict ℕ String
unfolding fill_events judge_event
suite_events runs = fill_events runs runs []
