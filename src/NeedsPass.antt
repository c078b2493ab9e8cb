-- ===== src/NeedsPass.antt =====
-- .github/actions/needs-pass/needs_pass.py: the aggregate verdict over `toJSON(needs)`. Each job's
-- value is an object or null there, and its result a text or null.
pub mod Verdict
mod Tests
use github.Base.{String, ◌<>◌, Bool, true, false, not, ◌&&◌, ◌||◌, List, [], ◌∷◌, ◌++◌, map}
use github.Base.{◌==◌, string_eq, contains, distinct, select, if◌then◌else◌}
use github.Base.Sorting.{sort, str_leb}
use github.Base.Text.{is_blank, split, strip}

-- `(value or {}).get("result", "")`
pub data JobResult : Type 0 where
  absent : JobResult
  null : JobResult
  text : String → JobResult

abbrev pub Needs : Type 0
Needs = List (String × JobResult)

-- `result == word`
abbrev pub is_result : JobResult → String → Bool
is_result (text r) word = r == word
is_result _ word = false

-- `result or 'no result'`
abbrev pub result_text : JobResult → String
result_text (text r) = if is_blank r then "no result" else r
result_text _ = "no result"

-- `result in PASS`
unfoldable pub passes : JobResult → Bool
passes r = is_result r "success" || is_result r "skipped"

drop_blank : List String → List String
drop_blank [] = []
drop_blank (w ∷ ws) =
    let rest = drop_blank ws in let word = strip w in if is_blank word then rest else word ∷ rest

unfoldable pub names : String → List String
unfolding drop_blank
names value = distinct (drop_blank (split b',' value))

unfoldable pub cancel_class : String → String → String
cancel_class job event =
    if event == "pull_request"
    then job <> ": CANCELLED (superseded push)"
    else job <> ": CANCELLED (stopped run)"

-- The jobs whose success the event asks for.
unfoldable pub required_for : List String → List String → String → List String
required_for required unless_group event =
    if event == "merge_group" then required else distinct (required ++ unless_group)

-- The first loop: a required job that is no dependency.
unfoldable pub missing : List String → Needs → List String
missing required needs =
    map (λ job. job <> ": required but not in needs")
      (sort str_leb (select (λ job. not (contains (map (λ entry. entry.0) needs) job)) required))

-- One round of the second loop.
unfoldable pub judge : List String → List String → String → String × JobResult → List String
unfolding cancel_class passes
judge required advisory event (job, r) =
    if is_result r "cancelled"
    then cancel_class job event ∷ []
    else if contains required job && not (is_result r "success")
    then (job <> (": " <> (result_text r <> " (must succeed)"))) ∷ []
    else if not (contains advisory job) && not (passes r)
    then (job <> (": " <> result_text r)) ∷ []
    else []

unfoldable pub judge_all : List String → List String → String → Needs → List String
unfolding judge
judge_all required advisory event [] = []
judge_all required advisory event (entry ∷ needs) =
    judge required advisory event entry ++ judge_all required advisory event needs

-- `sorted(needs.items())`: the keys differ, so they alone decide.
abbrev pub by_job : String × JobResult → String × JobResult → Bool
by_job a b = str_leb a.0 b.0

-- The reasons to fail; empty means pass.
unfoldable pub verdict : Needs → List String → List String → String → List String → List String
unfolding required_for missing judge_all
verdict needs required advisory event unless_group =
    let wanted = required_for required unless_group event in
    missing wanted needs ++ judge_all wanted advisory event (sort by_job needs)
