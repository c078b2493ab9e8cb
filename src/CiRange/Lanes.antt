-- ===== src/CiRange/Lanes.antt =====
-- The lanes of the caller: `parse_lanes`, `lane_name` and `select` of ci_range.py. `none` is the
-- ValueError of a declaration that is not well formed.
use github.Base.{ℕ, String, Bool, true, false, not, ◌&&◌, ◌||◌, Option, none, some}
use github.Base.{List, [], ◌∷◌, map, any, is_empty, contains, leb, eqb, string_eq, if◌then◌else◌}
use github.Base.{select as select_where}
use github.Base.Dict.{Dict, lookup, put}
use github.Base.Text.{
  split, strip, is_blank, every, starts_with, words, split_lines, partition, after_last, ends_in,
}

abbrev pub Lanes : Type 0
Lanes = Dict String (List String)

-- [A-Za-z0-9_-]
abbrev is_lane_char : ℕ → Bool
is_lane_char c =
    (leb 97 c && leb c 122)
    || (leb 65 c && leb c 90)
    || (leb 48 c && leb c 57)
    || eqb c b'_'
    || eqb c b'-'

abbrev is_lane_name : String → Bool
is_lane_name name = not (is_blank name) && every is_lane_char name

abbrev pub is_some : Option (List String) → Bool
is_some none = false
is_some (some ps) = true

-- A declaration, of its name and its patterns.
abbrev declare : Lanes → String × String → Option Lanes
declare lanes (name, patterns) =
    if not (is_lane_name (strip name))
    then none
    else if is_some (lookup lanes (strip name))
    then none
    else some (put lanes (strip name) (words patterns))

-- A line without its comment, which may be empty.
abbrev line_of : String → String
line_of raw = strip (partition b'#' raw).0

unfoldable pub read_line : Lanes → String → Option Lanes
read_line lanes raw =
    if is_blank (line_of raw) then some lanes else declare lanes (partition b':' (line_of raw))

unfoldable pub read_lanes : Lanes → List String → Option Lanes
unfolding read_line
read_lanes lanes [] = some lanes
read_lanes lanes (raw ∷ lines) = elim (read_line lanes raw) [
  | none ↦ none
  | some more ↦ read_lanes more lines
]

unfoldable pub parse_lanes : String → Option Lanes
unfolding read_lanes
parse_lanes text = read_lanes [] (split_lines text)

-- What the expression `\(.*\)$` takes after the parenthesis: no line feed, and a last parenthesis.
abbrev closes : String → Bool
closes s = every (λ c. not (eqb c 10)) s && ends_in b')' s

unfoldable pub drop_matrix : String → String
drop_matrix String.[] = ""
drop_matrix (String.◌∷◌ c s) =
    let rest = drop_matrix s in
    if every (λ d. eqb d b'(') (String.◌∷◌ c String.[]) && closes s then "" else String.◌∷◌ c rest

-- `job.strip().rsplit(" / ", 1)[-1]`
abbrev last_part : String → String
last_part job = elim (after_last " / " (strip job)) [ none ↦ strip job | some part ↦ part ]

-- `verify / rust (linux)` is the lane rust. The whitespace before the parenthesis goes with `strip`.
unfoldable pub lane_name : String → String
unfolding drop_matrix
lane_name job = strip (drop_matrix (last_part job))

-- `fnmatch.fnmatchcase` of a path and a pattern is a parameter: a function of the standard library.
module _ (matches : String → String → Bool) where
  -- No base, or a change of the workflows.
  abbrev pub is_everything : Option (List String) → Bool
  is_everything none = true
  is_everything (some paths) = any (λ path. starts_with path ".github/") paths

  abbrev pub matches_any : Option (List String) → List String → Bool
  matches_any none patterns = false
  matches_any (some paths) patterns = any (λ path. any (matches path) patterns) paths

  -- Whether the range selects a lane of these patterns.
  unfoldable pub runs : Option (List String) → List String → Bool
  runs changed patterns =
      is_everything changed
      || is_empty patterns
      || contains patterns "*"
      || matches_any changed patterns

  -- The lanes that `only` names.
  unfoldable pub wanted_of : Lanes → String → List String
  wanted_of lanes only =
      select_where (λ name. is_some (lookup lanes name))
        (map lane_name (select_where (λ x. not (is_blank (strip x))) (split b',' only)))

  abbrev pub narrow : List String → Dict String Bool → Dict String Bool
  narrow [] run = run
  narrow (name ∷ names) run = map (λ (lane, on). (lane, contains (name ∷ names) lane)) run

  unfoldable pub select : Lanes → Option (List String) → String → Dict String Bool
  unfolding runs wanted_of
  select lanes changed only =
      narrow (wanted_of lanes only) (map (λ (lane, patterns). (lane, runs changed patterns)) lanes)
