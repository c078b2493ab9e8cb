-- ===== src/CiOk.antt =====
-- .github/actions/ci-ok/ci_ok.py: the fail-closed gate over a workflow's declared dependencies. The
-- environment (NEEDS, already read as JSON, REQUIRED and EVENT_NAME) is the arguments of `main`.
pub mod Reading
pub mod Gate
mod Tests
use github.Base.{ℕ, String, ◌<>◌, Bool, ◌||◌, Option, none, some, List, [], ◌∷◌, ◌++◌, map}
use github.Base.{is_empty, if◌then◌else◌}
use github.Base.Sorting.{sort, str_leb}
use github.Base.Text.{is_blank, join}
use github.Json.{Value, Fields, no_fields, field, find, str, obj}
use github.NeedsPass.{JobResult, Needs, names, verdict}

-- `value["result"]`, which must be a text or null
abbrev pub result_of : Option Value → Option JobResult
result_of none = some JobResult.absent
result_of (some Value.null) = some JobResult.null
result_of (some (str r)) = some (JobResult.text r)
result_of (some _) = none

-- A job's value, which must be an object.
unfoldable pub read_value : Value → Option JobResult
read_value (obj fs) = result_of (find fs "result")
read_value _ = none

abbrev pub add_entry : String → Option JobResult → Option Needs → Option Needs
add_entry job (some r) (some rest) = if is_blank job then none else some ((job, r) ∷ rest)
add_entry job _ _ = none

-- The loop over `needs.items()`, with `none` where it returns its reason.
unfoldable pub read_needs : Fields → Option Needs
unfolding read_value
read_needs no_fields = some []
read_needs (field job value rest) = add_entry job (read_value value) (read_needs rest)

not_object : List String
not_object = "needs must be a nonempty object from toJSON(needs)" ∷ []

none_required : List String
none_required = "required must name the jobs that must run and succeed" ∷ []

not_results : List String
not_results = "needs must map job IDs to their result objects" ∷ []

evaluate_fields : Fields → List String → String → List String
evaluate_fields fs required event =
    if is_empty required then none_required else elim (read_needs fs) [
      | none ↦ not_results
      | some needs ↦ verdict needs required [] event []
    ]

-- Every reason the declared dependencies cannot pass the gate.
unfoldable pub evaluate : Value → List String → String → List String
unfolding evaluate_fields not_object none_required not_results
evaluate (obj no_fields) required event = not_object
evaluate (obj (field k v fs)) required event = evaluate_fields (field k v fs) required event
evaluate _ required event = not_object

report : List String → String → List String × ℕ
report [] required =
    (("all required jobs succeeded: " <> join ", " (sort str_leb (names required))) ∷ [], 0)
report (reason ∷ bad) required = (map (λ r. "::error::" <> r) (reason ∷ bad), 1)

-- What is printed, and the exit status. `none` is a NEEDS that is no JSON.
unfoldable pub main : Option Value → String → String → List String × ℕ
unfolding report
main none required event = ("::error::needs must be the calling job's toJSON(needs)" ∷ [], 1)
main (some needs) required event = report (evaluate needs (names required) event) required
