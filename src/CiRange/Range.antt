-- ===== src/CiRange/Range.antt =====
-- The base of a run and what it selects: `base_for` and `main` of ci_range.py. `none` is an
-- exception. Git and the API are parameters.
use github.Base.{ℕ, String, ◌<>◌, Bool, true, false, ◌&&◌, ◌||◌, Option, none, some}
use github.Base.{List, [], ◌∷◌, length, leb, ltb, ◌==◌, string_eq, nat_eq, if◌then◌else◌}
use github.Base.Dict.{Dict}
use github.Base.Text.{is_blank, every, text_length, partition, split_lines}
use github.Json.{Value, Fields, get, find, obj, str, text_of, dict_of, is_truthy}
use github.RedMain.Proof.Pages.{Row, and_then}
use github.RedMain.Proof.Checks.{id_of}
use github.RedMain.Proof.Verdict.{checked_verdict}
use github.RedMain.Proof.Runs.{file_of, push_runs, last_verified as last_proven}
use github.CiRange.Lanes.{Lanes, parse_lanes, select}

-- `value[key]`
abbrev pub index : Option Value → String → Option Value
index (some (obj fs)) key = find fs key
index _ key = none

-- [0-9a-f]{40}|[0-9a-f]{64}
unfoldable pub is_immutable : String → Bool
is_immutable s =
    every (λ c. (leb 48 c && leb c 57) || (leb 97 c && leb c 102)) s
    && (text_length s == 40 || text_length s == 64)

-- `payload["inputs"].get("code-base", "")` must be the text of a commit.
abbrev immutable_base : Option Value → Option Value
immutable_base (some (str base)) = if is_immutable base then some (str base) else none
immutable_base _ = none

-- The inputs of a dispatch, where they are given: `none` is a value without `get`.
abbrev inputs_of : Value → Option Fields
inputs_of v = if is_truthy v then dict_of v else some Fields.no_fields

-- `max(rows, key=id)`, which keeps the first of equal keys
unfoldable pub newest_by_id : Row → List Row → Row
newest_by_id best [] = best
newest_by_id best (row ∷ rows) =
    newest_by_id (if ltb (id_of best) (id_of row) then row else best) rows

-- What the environment gives: the variables whose absence raises, the event and its payload.
pub record Env : Type 0 where
  pub repo : String
  pub event : String
  pub payload : Fields
  pub workflow_ref : String
  pub lanes : Option String
  pub only : String
  pub mode : String
  pub proof_branch : String
  pub proof_workflow : String
  pub proof_identity : String

-- What is written to the outputs of the step.
pub data Output : Type 0 where
  verdict : Value → Output
  range : Value → Dict String Bool → Option ℕ → Output

abbrev pub or_empty : Option String → String
or_empty none = ""
or_empty (some sha) = sha

-- The last commit whose full suite passed, or the empty text: an exception is one too.
unfoldable pub last_verified :
    (api : String → Option Value)
    → (String → String → String → String)
    → List String
    → String
    → String
    → String
    → String
last_verified api urlencode parents repo workflow branch =
    or_empty (last_proven api urlencode repo branch workflow "verified" parents)

-- The base that is used: git takes a text, and a commit that cannot be fetched is none.
abbrev pub reachable_base : (Bool → String → Bool) → Value → Option (Option String)
reachable_base here base =
    if is_truthy base
    then and_then (text_of base)
        (λ sha. some (if here false sha || here true sha then some sha else none))
    else some none

abbrev pub changed_files : (String → Option String) → Option String → Option (Option (List String))
changed_files diff none = some none
changed_files diff (some sha) = and_then (diff sha) (λ text. some (some (split_lines text)))

abbrev pub count_of_files : Option (List String) → Option ℕ
count_of_files none = none
count_of_files (some paths) = some (length paths)

-- The base as it is written: one that was given and is not reachable is written as empty.
abbrev pub written_base : Value → Option String → Value
written_base base none = if is_truthy base then str "" else base
written_base base (some sha) = str sha

-- A default branch is a text, and "main" where the payload names none.
abbrev branch_in : Fields → Option String
branch_in repository =
    if is_truthy (get repository "default_branch")
    then text_of (get repository "default_branch")
    else some "main"

abbrev pub default_branch : Fields → Option String
default_branch payload =
    if is_truthy (get payload "repository")
    then and_then (dict_of (get payload "repository")) branch_in
    else some "main"

abbrev pub workflow_file : Env → String
workflow_file env = file_of (partition b'@' env.workflow_ref).0

-- `parents` lists the ancestors of HEAD, `here` tells whether a commit is in the checkout, first as
-- it is and then after it was fetched, and `diff` is the output of git diff.
module _ (api : String → Option Value) (urlencode : String → String → String → String)
    (parents : List String) (here : Bool → String → Bool) (diff : String → Option String)
    (matches : String → String → Bool) where
  abbrev pub pushed_base : String → String → String → String → Option Value
  pushed_base event repo workflow branch =
      if event == "push" || event == "workflow_dispatch"
      then some (str (last_verified api urlencode parents repo workflow branch))
      else some (str "")

  abbrev pub dispatched_base : Fields → String → String → String → String → Option Value
  dispatched_base inputs event repo workflow branch =
      if is_truthy (get inputs "code-merge")
      then immutable_base (find inputs "code-base")
      else pushed_base event repo workflow branch

  unfoldable pub base_for : String → Fields → String → String → String → Option Value
  unfolding last_verified
  base_for event payload repo workflow branch =
      if event == "pull_request" || event == "pull_request_target"
      then index (index (find payload "pull_request") "base") "sha"
      else if event == "merge_group"
      then index (find payload "merge_group") "base_sha"
      else if event == "workflow_dispatch"
      then and_then (inputs_of (get payload "inputs"))
          (λ inputs. dispatched_base inputs event repo workflow branch)
      else pushed_base event repo workflow branch

  unfoldable pub selected_range : Env → Lanes → Value → Option Output
  selected_range env lanes base = and_then (reachable_base here base) (λ reached.
      and_then (changed_files diff reached) (λ changed. some (
        range (written_base base reached) (select matches lanes changed env.only)
          (count_of_files changed))))

  unfoldable pub range_main : Env → Option Output
  unfolding base_for selected_range
  range_main env = and_then env.lanes (λ text. and_then (parse_lanes text) (λ lanes.
      and_then (default_branch env.payload) (λ branch.
        and_then (base_for env.event env.payload env.repo (workflow_file env) branch)
          (selected_range env lanes))))

  abbrev newest_run : List Row → Value
  newest_run [] = Value.null
  newest_run (row ∷ rows) = obj (newest_by_id row rows)

  -- The run that is asked for, or the newest push.
  abbrev proof_run : Env → Option Value
  proof_run env =
      if is_blank env.proof_identity
      then and_then (push_runs api urlencode env.repo env.proof_branch env.proof_workflow none)
          (λ rows. some (newest_run rows))
      else api ("repos/" <> (env.repo <> ("/actions/runs/" <> env.proof_identity)))

  abbrev proven : Env → Value → Option Value
  proven env run =
      if is_truthy run
      then checked_verdict api run env.repo env.proof_branch env.proof_workflow "verified"
      else some (str "unknown")

  abbrev or_unknown : Option Value → Value
  or_unknown none = str "unknown"
  or_unknown (some v) = v

  unfoldable pub proof_verdict : Env → Value
  unfolding newest_by_id
  proof_verdict env = or_unknown (and_then (proof_run env) (proven env))

  unfoldable pub main : Env → Option Output
  unfolding range_main proof_verdict
  main env =
      if env.mode == "range"
      then range_main env
      else if env.mode == "run"
      then some (verdict (proof_verdict env))
      else none
