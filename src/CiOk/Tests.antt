-- ===== src/CiOk/Tests.antt =====
-- Runs of the gate of ci_ok.py, and its theorem at concrete data.
use github.Base.{library, String, ◌≡◌, refl, ◌↔◌, ◌≢◌, true, some, [], ◌∷◌}
use github.Json.{Value, obj, no_fields, field, str, bool}
use github.NeedsPass.{Needs, names, verdict}
use github.CiOk.{main, read_needs, evaluate}
use github.CiOk.Reading.{SaysNeeds}
use github.CiOk.Gate.{Passing, main-zero_iff}
use github.Json.{find}

abbrev result : String → Value
result r = obj (field "result" (str r) (field "outputs" (obj no_fields) no_fields))

abbrev needs : Value
needs = obj (field "test" (result "success") (field "docs" (result "skipped") no_fields))

green : main (some needs) "test" "push" ≡ ("all required jobs succeeded: test" ∷ [], 0)
unfolding main evaluate read_needs verdict names find library
green = refl

skipped : main (some needs) "test,docs" "push" ≡ ("::error::docs: skipped (must succeed)" ∷ [], 1)
unfolding main evaluate read_needs verdict names find library
skipped = refl

no_object :
    main (some (obj (field "test" (bool true) no_fields))) "test" "push"
    ≡ ("::error::needs must map job IDs to their result objects" ∷ [], 1)
unfolding main evaluate read_needs verdict names find library
no_object = refl

main-zero_iff_example : ((main (some needs) "test" "push").1 ≡ 0) ↔ (
    (v : Value) × (read : Needs) × (some needs ≡ some v)
    × SaysNeeds v read
    × (names "test" ≢ [])
    × Passing (names "test") read)
main-zero_iff_example = main-zero_iff (some needs) "test" "push"
