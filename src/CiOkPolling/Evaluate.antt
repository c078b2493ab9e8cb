-- ===== src/CiOkPolling/Evaluate.antt =====
-- `evaluate` of ci-ok-polling/ci_ok.py.
use github.Base.{ℕ, String, ◌<>◌, Bool, not, ◌&&◌, ◌||◌, Option, none, some}
use github.Base.{
  List, [], ◌∷◌, ◌++◌, map, select, contains, is_empty, ◌==◌, string_eq, option_eq, nat_eq,
}
use github.Base.{if◌then◌else◌}
use github.Base.Sorting.{sort, str_leb}
use github.Base.Text.{is_blank}
use github.Base.Dict.{Dict, lookup, put}
use github.Base.Decimal.{decimal}
use github.CiOkPolling.Runs.{CheckRun, Suite, Events, bad, gating_events, is_in, is_completed}
use github.CiOkPolling.Runs.{is_empty_suite, event_of, latest_runs}

pub data State : Type 0 where
  pending fail pass : State

-- The arguments of `evaluate`. `suite_names` is `{}` where it is not given.
pub record Inputs : Type 0 where
  pub runs : List CheckRun
  pub ignore : List String
  pub actions_only : Bool
  pub suites : List Suite
  pub required : List String
  pub allow_none : Bool
  pub suite_events : Events
  pub event_name : String
  pub suite_names : Dict ℕ String

-- An f-string writes None for a null.
abbrev shown : Option String → String
shown none = "None"
shown (some s) = s

-- `conclusion or "missing"`
abbrev or_missing : Option String → String
or_missing none = "missing"
or_missing (some s) = if is_blank s then "missing" else s

-- `app.get("slug", "github-actions")`: a slug that is null stays null.
abbrev default_slug : Option (Option String) → Option String
default_slug none = some "github-actions"
default_slug (some slug) = slug

-- The runs that the gate reads.
unfoldable pub is_read : Inputs → CheckRun → Bool
is_read x r =
    not (contains x.ignore r.name)
    && (not x.actions_only || default_slug r.app_slug == some "github-actions")

unfoldable pub relevant : Inputs → List CheckRun
unfolding is_read
relevant x = latest_runs (select (is_read x) x.runs) x.suite_events

abbrev pub suite_event : Inputs → Suite → Option String
suite_event x suite = event_of x.suite_events (some suite.id)

-- An empty suite whose workflow gates the change and has not finished.
unfoldable pub waits : Inputs → Suite → Bool
waits x s = not (is_completed s.status) && is_empty_suite s && is_in (suite_event x s) gating_events

-- An empty suite that failed to start, and counts for this event.
unfoldable pub failed_start : Inputs → Suite → Bool
failed_start x s =
    is_completed s.status
    && is_in s.conclusion bad
    && is_empty_suite s
    && (suite_event x s == none
        || is_in (suite_event x s) gating_events
        || (suite_event x s == some "push"
            && contains ("pull_request" ∷ "pull_request_target" ∷ []) x.event_name))

abbrev pub has_failed : CheckRun → Bool
has_failed r = is_completed r.status && is_in r.conclusion bad

unfoldable pub pending_names : Inputs → List CheckRun → List String
unfolding waits
pending_names x rs =
    map (λ r. r.name) (select (λ r. not (is_completed r.status)) rs)
    ++ map (λ s. "workflow has no jobs yet (check suite " <> (decimal s.id <> ")"))
        (select (waits x) x.suites)

abbrev workflow_name : Option String → String
workflow_name none = "unknown workflow"
workflow_name (some s) = s

failed_name : Inputs → Suite → String
failed_name x s =
    "workflow failed to start (check suite "
    <> (decimal s.id
        <> (", conclusion "
            <> (shown s.conclusion
                <> (", 0 jobs): " <> workflow_name (lookup x.suite_names s.id)))))

unfoldable pub bad_names : Inputs → List CheckRun → List String
unfolding failed_start failed_name
bad_names x rs =
    map (λ r. r.name <> ("=" <> shown r.conclusion)) (select has_failed rs)
    ++ map (failed_name x) (select (failed_start x) x.suites)

-- A required check that concluded, neither with success nor badly.
unfoldable pub cannot_recover : Inputs → CheckRun → Bool
cannot_recover x r =
    contains x.required r.name
    && is_completed r.status
    && not (r.conclusion == some "success")
    && not (is_in r.conclusion bad)

abbrev pub required_line : String → Option String → String
required_line name conclusion = name <> ("=" <> (or_missing conclusion <> " (required)"))

-- `concluded = {r["name"]: r.get("conclusion") for r in relevant}`
unfoldable pub conclude : Dict String (Option String) → List CheckRun → Dict String (Option String)
conclude d [] = d
conclude d (r ∷ rs) = conclude (put d r.name r.conclusion) rs

abbrev pub joined : Option (Option String) → Option String
joined none = none
joined (some c) = c

unfoldable pub concluded : List CheckRun → String → Option String
unfolding conclude
concluded rs name = joined (lookup (conclude [] rs) name)

unfoldable pub unmet : Inputs → List CheckRun → List String
unfolding concluded
unmet x rs =
    map (λ name. required_line name (concluded rs name))
      (select (λ name. not (concluded rs name == some "success")) (sort str_leb x.required))

abbrev pub nothing_ran : Inputs → List CheckRun → List String
nothing_ran x rs =
    if is_empty rs && not x.allow_none then "no other check ran on this commit" ∷ [] else []

abbrev pub settle : State → List String → List String → State × List String
settle otherwise [] names = (otherwise, sort str_leb names)
settle otherwise (reason ∷ reasons) names = (fail, sort str_leb (reason ∷ reasons))

unfoldable pub evaluate_runs : Inputs → List CheckRun → State × List String
unfolding pending_names bad_names cannot_recover unmet
evaluate_runs x rs =
    let waiting = pending_names x rs in
    let hopeless =
      bad_names x rs
      ++ map (λ r. required_line r.name r.conclusion) (select (cannot_recover x) rs) in
    let final = bad_names x rs ++ (unmet x rs ++ nothing_ran x rs) in
    if is_empty waiting
    then settle pass final (map (λ r. r.name) rs)
    else settle pending hopeless waiting

unfoldable pub evaluate : Inputs → State × List String
unfolding evaluate_runs relevant
evaluate x = evaluate_runs x (relevant x)
