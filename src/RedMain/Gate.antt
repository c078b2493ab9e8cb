-- ===== src/RedMain/Gate.antt =====
-- .github/red_main/gate.py: what the manifest of a repository allows the handler to do.
pub mod Taken
pub mod Declared
mod Tests
use github.Base.{ℕ, String, ◌<>◌, Bool, true, false, not, ◌&&◌, ◌||◌, Option, none, some}
use github.Base.{List, [], ◌∷◌, contains, leb, eqb, ◌==◌, string_eq, if◌then◌else◌}
use github.Base.Text.{
  strip, is_blank, starts_with, strip_prefix, every, partition, split_lines, strip_of, has_char,
  codes,
}
use github.Json.{Value, Fields, no_fields, get, obj, str, text_of, is_text, is_truthy, set_field}

abbrev pub default_owner : String
default_owner = "owner:ops"

abbrev pub migrations : String
migrations = "**/migrations/**,**/migrate/**,**/atlas.sum,**/drizzle/**,**/prisma/migrations/**"

-- What is printed. An empty hold is written as a dash.
pub record Answer : Type 0 where
  pub verdict : String
  pub mode : String
  pub owner : String
  pub paths : String
  pub hold : String
  pub basis : String

abbrev pub refuse : String → String → Answer
refuse verdict basis = record {
  verdict = verdict;
  mode = "";
  owner = default_owner;
  paths = migrations;
  hold = "";
  basis = basis;
}

-- owner:[a-z0-9-]+
abbrev is_owner_char : ℕ → Bool
is_owner_char c = (leb 97 c && leb c 122) || (leb 48 c && leb c 57) || eqb c b'-'

unfoldable pub is_owner : String → Bool
is_owner s = elim (strip_prefix s "owner:") [
  | none ↦ false
  | some name ↦ not (is_blank name) && every is_owner_char name
]

-- [A-Za-z0-9_./*,-]+
abbrev is_glob_char : ℕ → Bool
is_glob_char c =
    (leb 97 c && leb c 122)
    || (leb 65 c && leb c 90)
    || (leb 48 c && leb c 57)
    || eqb c b'_'
    || eqb c b'.'
    || eqb c b'/'
    || eqb c b'*'
    || eqb c b','
    || eqb c b'-'

unfoldable pub are_globs : String → Bool
are_globs s = not (is_blank s) && every is_glob_char s

abbrev is_digit : ℕ → Bool
is_digit c = leb 48 c && leb c 57

-- ([01][0-9]|2[0-3]):[0-5][0-9]
abbrev is_time : ℕ → ℕ → ℕ → ℕ → ℕ → Bool
is_time a b colon c d =
    (((eqb a 48 || eqb a 49) && is_digit b) || (eqb a 50 && leb 48 b && leb b 51))
    && eqb colon b':'
    && leb 48 c
    && leb c 53
    && is_digit d

abbrev pub are_window : List ℕ → Bool
are_window (a ∷ b ∷ c ∷ d ∷ e ∷ dash ∷ f ∷ g ∷ h ∷ i ∷ j ∷ []) =
    is_time a b c d e && eqb dash b'-' && is_time f g h i j
are_window _ = false

unfoldable pub is_window : String → Bool
is_window s = are_window (codes s)

abbrev pub if_text : (String → Bool) → Value → String → String
if_text test (str s) other = if test s then s else other
if_text test _ other = other

unfoldable pub owner_of : Fields → String
unfolding is_owner
owner_of ci = if_text is_owner (get ci "red_main_owner") default_owner

abbrev pub paths_with : Value → String
paths_with (str extra) = if are_globs extra then migrations <> ("," <> extra) else migrations
paths_with _ = migrations

unfoldable pub paths_of : Fields → String
unfolding are_globs
paths_of ci = paths_with (get ci "migration_paths")

unfoldable pub hold_of : Fields → String
unfolding is_window
hold_of ci = if_text is_window (get ci "revert_hold_utc") ""

abbrev pub modes : List String
modes = "notify" ∷ "revert" ∷ "revert_pr_unarmed" ∷ []

abbrev pub on_red_of : Fields → Value
on_red_of ci = if is_truthy (get ci "on_red") then get ci "on_red" else str "revert"

-- The manifest as it is read without tomllib: the table of the line, and what was read of [ci].
abbrev pub Reading : Type 0
Reading = Option String × Fields

abbrev value_in : String → Value
value_in text = str (strip_of (λ c. eqb c 34) (strip text))

abbrev add_key : String × String → Reading → Reading
add_key (key, text) (table, ci) = (table, set_field (strip key) (value_in text) ci)

abbrev is_bracket : ℕ → Bool
is_bracket c = eqb c b'[' || eqb c b']'

abbrev is_ci : Option String → Bool
is_ci none = false
is_ci (some table) = table == "ci"

-- A line without its comment.
abbrev pub read_line : String → Reading → Reading
read_line line (table, ci) =
    if is_blank line
    then (table, ci)
    else if starts_with line "["
    then (some (strip (strip_of is_bracket line)), ci)
    else if is_ci table && has_char b'=' line
    then add_key (partition b'=' line) (table, ci)
    else (table, ci)

unfoldable pub read_lines : List String → Reading → Reading
read_lines [] reading = reading
read_lines (raw ∷ lines) reading =
    read_lines lines (read_line (strip (partition b'#' raw).0) reading)

abbrev pub dict_or_empty : Value → Fields
dict_or_empty (obj fs) = fs
dict_or_empty _ = no_fields

-- tomllib is a parameter where Python has it: what it reads, or an exception. `repr` is one too.
module _ (tomllib : Option (String → Option Fields)) (repr : Value → String) where
  abbrev loaded : Option (String → Option Fields) → String → Option Fields
  loaded none raw = some (read_lines (split_lines raw) (none, no_fields)).1
  loaded (some loads) raw = elim (loads raw) [
    | none ↦ none
    | some manifest ↦ some (dict_or_empty (get manifest "ci"))
  ]

  -- The table [ci], or none where the file or its text cannot be read.
  unfoldable pub read_ci : Option String → Option Fields
  unfolding read_lines
  read_ci none = none
  read_ci (some raw) = loaded tomllib raw

  abbrev pub act : Fields → String → Answer
  act ci mode = record {
    verdict = "act";
    mode = mode;
    owner = owner_of ci;
    paths = paths_of ci;
    hold = hold_of ci;
    basis = "sylphx.toml [ci] merge=optimistic on_red=" <> mode;
  }

  abbrev pub mode_refused : Value → Answer
  mode_refused v =
      refuse "error"
        ("sylphx.toml [ci] on_red must be notify, revert or revert_pr_unarmed, not " <> repr v)

  abbrev pub in_mode : Fields → Value → Answer
  in_mode ci (str mode) = if contains modes mode then act ci mode else mode_refused (str mode)
  in_mode ci v = mode_refused v

  unfoldable pub declared : Option Fields → Answer
  unfolding owner_of paths_of hold_of
  declared none = refuse "off" "sylphx.toml could not be read"
  declared (some ci) =
      if is_text "optimistic" (get ci "merge")
      then in_mode ci (on_red_of ci)
      else refuse "off"
          ("sylphx.toml [ci] merge is " <> (repr (get ci "merge") <> ", not optimistic"))

  -- The whole script, for whether the repository has a manifest, and its text.
  unfoldable pub gate : Bool → Option String → Answer
  unfolding read_ci declared
  gate false raw = refuse "off" (
      "no sylphx.toml; a repository that wants verified commits adopts a minimal manifest "
      <> "(version = \"1\" and [ci] merge = \"optimistic\", on_red = \"notify\" or \"revert\")")
  gate true raw = declared (read_ci raw)
