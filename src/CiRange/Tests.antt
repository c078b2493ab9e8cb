-- ===== src/CiRange/Tests.antt =====
-- Runs of ci_range.py, and its theorems at concrete data.
use github.Base.{
  library, String, ◌≡◌, ◌⊎◌, ◌↔◌, refl, Bool, true, false, Option, some, List, [], ◌∷◌, ◌==◌,
  string_eq, if◌then◌else◌,
}
use github.Base.Text.{starts_with, split_lines, partition, after_last, ends_in}
use github.Base.Dict.{lookup}
use github.Json.{same, no_fields, get, find, str}
use github.RedMain.Proof.Sample.{sha, other, query, verified_api}
use github.RedMain.Proof.Origin.{producer_origin, is_full_name, is_event, is_workflow_path, is_sha}
use github.RedMain.Proof.Checks.{failure_before_cancel, authenticated_job}
use github.RedMain.Proof.Verdict.{checked_verdict, verdict_of}
use github.RedMain.Proof.Pages.{paged}
use github.RedMain.Proof.Runs.{last_verified, sha_verdict}
use github.CiRange.Lanes.{Lanes, parse_lanes, lane_name, select}
use github.CiRange.Selected.{IsNamed, IsTouched, select-true_iff}
use github.CiRange.Range.{Env, range, main}
use github.CiRange.Covers.{Covers, Declared, main-Covers}

abbrev lanes_text : String
lanes_text = "rust: crates/* # the core\nlint:\n"

abbrev lanes : Lanes
lanes = ("rust", "crates/*" ∷ []) ∷ ("lint", []) ∷ []

parse_test : parse_lanes lanes_text ≡ some lanes
unfolding parse_lanes split_lines partition library
parse_test = refl

name_test : lane_name "verify / rust (linux)" ≡ "rust"
unfolding lane_name after_last ends_in library
name_test = refl

-- Globs of the test, where a star is the last character.
abbrev globs : String → String → Bool
globs path pattern = if pattern == "crates/*" then starts_with path "crates/" else path == pattern

select_test :
    select globs lanes (some ("docs/a.md" ∷ [])) "" ≡ ("rust", false) ∷ ("lint", true) ∷ []
unfolding select starts_with library
select_test = refl

select-true_iff_example :
    (lookup (select globs lanes (some ("docs/a.md" ∷ [])) "") "rust" ≡ some true) ↔ (
      (patterns : List String) × (lookup lanes "rust" ≡ some patterns)
      × (IsNamed globs lanes "" "rust"
          ⊎ (((other : String) → ¬ IsNamed globs lanes "" other)
              × IsTouched globs (some ("docs/a.md" ∷ [])) patterns)))
select-true_iff_example = select-true_iff globs lanes (some ("docs/a.md" ∷ [])) "" "rust"

abbrev here : Bool → String → Bool
here fetched commit = true

abbrev diff : String → Option String
diff commit = some "docs/a.md\n"

abbrev env : Env
env = record {
  repo = "o/r";
  event = "push";
  payload = no_fields;
  workflow_ref = "o/r/.github/workflows/verify.yml@main";
  lanes = some lanes_text;
  only = "";
  mode = "range";
  proof_branch = "main";
  proof_workflow = "verify.yml";
  proof_identity = "";
}

main_test :
    main (verified_api "success") query (other ∷ sha ∷ []) here diff globs env
    ≡ some (range (str sha) (("rust", false) ∷ ("lint", true) ∷ []) (some 1))
unfolding main parse_lanes select split_lines partition last_verified sha_verdict paged get find
    checked_verdict producer_origin starts_with same is_full_name is_event is_workflow_path is_sha
    authenticated_job failure_before_cancel verdict_of library
main_test = refl

main-Covers_example :
    (read : Lanes) × Declared env read
    × Covers
        (verified_api "success")
        query
        (other ∷ sha ∷ [])
        here
        diff
        globs
        env
        read
        (str sha)
        (("rust", false) ∷ ("lint", true) ∷ [])
        (some 1)
main-Covers_example =
    main-Covers (verified_api "success") query (other ∷ sha ∷ []) here diff globs env (str sha)
      (("rust", false) ∷ ("lint", true) ∷ []) (some 1) refl refl main_test
