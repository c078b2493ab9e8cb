-- ===== src/RedMain/Proof/Origin.antt =====
-- Who produced a run: `producer_origin` of red_main/proof.py and what it tests. A run is a JSON
-- value, and `none` is an exception.
use github.Base.{ℕ, String, ◌<>◌, Bool, true, false, not, ◌&&◌, ◌||◌, Option, none, some}
use github.Base.{List, [], ◌∷◌, leb, eqb, ◌==◌, string_eq, nat_eq, if◌then◌else◌}
use github.Base.Text.{
  split, strip, is_blank, every, text_length, strip_prefix, ends_longer, starts_with,
}
use github.Json.{Value, Fields, get, obj, text_of, positive_of}

unfoldable pub workflow_path : String → String
workflow_path workflow =
    if starts_with workflow ".github/workflows/" then workflow else ".github/workflows/" <> workflow

abbrev pub is_positive : Option ℕ → Bool
is_positive none = false
is_positive (some n) = true

-- `positive_id`
abbrev pub positive_id : Value → Bool
positive_id v = is_positive (positive_of v)

abbrev is_digit : ℕ → Bool
is_digit c = leb 48 c && leb c 57

abbrev is_small : ℕ → Bool
is_small c = leb 97 c && leb c 122

abbrev is_capital : ℕ → Bool
is_capital c = leb 65 c && leb c 90

-- [a-f0-9]
abbrev is_hex_digit : ℕ → Bool
is_hex_digit c = is_digit c || (leb 97 c && leb c 102)

-- [A-Za-z0-9_.-]
abbrev is_name_char : ℕ → Bool
is_name_char c = is_small c || is_capital c || is_digit c || eqb c b'_' || eqb c b'.' || eqb c b'-'

abbrev is_name : String → Bool
is_name s = not (is_blank s) && every is_name_char s

abbrev are_two_names : List String → Bool
are_two_names (owner ∷ name ∷ []) = is_name owner && is_name name
are_two_names _ = false

-- `re.fullmatch` of an owner, a slash and a name: neither has a slash.
unfoldable pub is_full_name : String → Bool
is_full_name s = are_two_names (split b'/' s)

-- [a-z][a-z0-9_]*
unfoldable pub is_event : String → Bool
is_event String.[] = false
is_event (String.◌∷◌ c s) =
    every is_small (String.◌∷◌ c String.[]) && every (λ d. is_small d || is_digit d || eqb d b'_') s

abbrev is_yaml_name : Option String → Bool
is_yaml_name none = false
is_yaml_name (some name) =
    every (λ c. not (eqb c b'/')) name && (ends_longer name ".yml" || ends_longer name ".yaml")

-- \.github/workflows/[^/]+\.ya?ml
unfoldable pub is_workflow_path : String → Bool
is_workflow_path s = is_yaml_name (strip_prefix s ".github/workflows/")

-- `valid_sha`, of a text
unfoldable pub is_sha : String → Bool
is_sha s = text_length s == 40 && every is_hex_digit s

abbrev pub holds : (String → Bool) → Option String → Bool
holds test none = false
holds test (some s) = test s

-- `valid_sha`
abbrev pub valid_sha : Value → Bool
valid_sha v = holds is_sha (text_of v)

abbrev pub identity_is_valid : Value → Bool
identity_is_valid (obj fs) =
    positive_id (get fs "id") && holds is_full_name (text_of (get fs "full_name"))
identity_is_valid _ = false

-- Every field that the origin is read from is there and well formed.
unfoldable pub is_complete : Fields → Bool
is_complete run =
    positive_id (get run "id")
    && positive_id (get run "workflow_id")
    && positive_id (get run "check_suite_id")
    && positive_id (get run "run_attempt")
    && identity_is_valid (get run "repository")
    && identity_is_valid (get run "head_repository")
    && holds is_event (text_of (get run "event"))
    && holds (λ s. not (is_blank (strip s))) (text_of (get run "head_branch"))
    && holds is_workflow_path (text_of (get run "path"))
    && valid_sha (get run "head_sha")

abbrev pub has_text : String → Value → Bool
has_text s v = holds (λ t. t == s) (text_of v)

-- `run["repository"]["id"] == run["head_repository"]["id"]` of two positive numbers
abbrev same_id : Option ℕ → Option ℕ → Bool
same_id (some m) (some n) = m == n
same_id _ _ = false

abbrev pub inner : Value → String → Value
inner (obj fs) key = get fs key
inner v key = Value.null

-- `sha is None or run["head_sha"] == sha`
abbrev is_at : Option String → Value → Bool
is_at none v = true
is_at (some sha) v = has_text sha v

unfoldable pub is_eligible : Fields → String → String → String → Option String → Bool
unfolding workflow_path
is_eligible run repo branch workflow sha =
    has_text "push" (get run "event")
    && has_text branch (get run "head_branch")
    && has_text (workflow_path workflow) (get run "path")
    && has_text repo (inner (get run "repository") "full_name")
    && has_text repo (inner (get run "head_repository") "full_name")
    && same_id (positive_of (inner (get run "repository") "id"))
        (positive_of (inner (get run "head_repository") "id"))
    && is_at sha (get run "head_sha")

pub data Origin : Type 0 where
  eligible ineligible unknown : Origin

unfoldable pub producer_origin : Value → String → String → String → Option String → Origin
unfolding is_complete is_eligible
producer_origin (obj run) repo branch workflow sha =
    if is_complete run
    then if is_eligible run repo branch workflow sha then eligible else ineligible
    else unknown
producer_origin _ repo branch workflow sha = unknown
