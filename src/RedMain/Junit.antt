-- ===== src/RedMain/Junit.antt =====
-- The junit of a run: .github/red_main/junit.py, and `read_junit` of window.py. The files that
-- `os.walk` finds are given, with what the XML parser reads in them, or `none` where it raises.
pub mod Gather
pub mod Agree
mod Tests
use github.Base.{String, ◌<>◌, Bool, true, false, not, ◌&&◌, ◌||◌, Option, none, some}
use github.Base.{List, [], ◌∷◌, ◌++◌, map, select, contains, ◌==◌, string_eq, ℕ, if◌then◌else◌}
use github.Base.Dict.{Dict, lookup, put}
use github.Base.Text.{is_blank, partition, strip_prefix, join, words, cut, ends_longer}
use github.RedMain.Units.{Row, Pair, pair_eq}
use github.RedMain.Window.{Evidence}

-- A testcase: its attributes, and the tags of its children.
pub record Case : Type 0 where
  pub name : Option String
  pub classname : Option String
  pub kinds : List String

-- A file: its name, that of its directory, and that of the directory below the root.
pub record File : Type 0 where
  pub filename : String
  pub directory : String
  pub entry : String
  pub cases : Option (List Case)

abbrev or_empty : Option String → String
or_empty none = ""
or_empty (some s) = s

abbrev pub clean_text : String → String
clean_text s = cut 300 (join " " (words s))

-- `clean`
unfoldable pub clean : Option String → String
clean value = clean_text (or_empty value)

-- The name of a test: its class and its name.
unfoldable pub full_name : Case → String
unfolding clean
full_name case =
    if is_blank (clean case.classname)
    then clean case.name
    else clean case.classname <> ("::" <> clean case.name)

abbrev lane_in : String → String
lane_in directory = elim (strip_prefix directory "junit-") [ none ↦ directory | some lane ↦ lane ]

-- The lane of a file: what the store's map says of its entry, or else its directory.
unfoldable pub lane_of : Dict String String → File → String
lane_of lanes file = elim (lookup lanes file.entry) [
  | none ↦ lane_in file.directory
  | some lane ↦ lane
]

-- `child.tag in ("failure", "error")` of some child
unfoldable pub has_failed : Case → Bool
has_failed case = contains case.kinds "failure" || contains case.kinds "error"

-- A testcase with its lane.
abbrev pub Tested : Type 0
Tested = Case × String

abbrev pub pair_of : Tested → Pair
pair_of (case, lane) = (full_name case, lane)

abbrev pub is_named : Tested → Bool
is_named (case, lane) = not (is_blank (full_name case))

abbrev cases_in : Option (List Case) → List Case
cases_in none = []
cases_in (some cases) = cases

-- The testcases of all the XML files that can be read, in the order of the loops.
unfoldable pub tested : Dict String String → List File → List Tested
unfolding lane_of
tested lanes [] = []
tested lanes (file ∷ files) =
    let rest = tested lanes files in
    if ends_longer file.filename ".xml" || file.filename == ".xml"
    then map (λ case. (case, lane_of lanes file)) (cases_in file.cases) ++ rest
    else rest

-- `read_junit` of window.py
unfoldable pub read_junit : Dict String String → List File → List Pair × List Pair × List String
unfolding tested has_failed full_name
read_junit lanes files =
    let named = select is_named (tested lanes files) in
    let failing = select (λ t. has_failed t.0) named in
    let passing = select (λ t. not (has_failed t.0) && not (contains t.0.kinds "skipped")) named in
    (map pair_of failing, map pair_of passing, map (λ t. t.1) named)

-- What junit.py has written: its rows, what it has seen, and the lanes with a failing test.
pub record Written : Type 0 where
  pub rows : List Row
  pub seen : List Pair
  pub covered : List String

abbrev pub test_row : Pair → Row
test_row (name, lane) = record { kind = "test"; name = name; job = lane }

abbrev pub write_test : Pair → Written → Written
write_test pair before = record {
  rows = before.rows ++ test_row pair ∷ [];
  seen = before.seen ++ pair ∷ [];
  covered = before.covered ++ pair.1 ∷ [];
}

-- A round of the loop over the testcases.
abbrev pub add_test : Tested → Written → Written
add_test t before =
    if not (has_failed t.0)
    then before
    else if is_blank (full_name t.0) || contains before.seen (pair_of t)
    then before
    else write_test (pair_of t) before

unfoldable pub add_tests : List Tested → Written → Written
unfolding has_failed full_name
add_tests [] before = before
add_tests (t ∷ ts) before = add_tests ts (add_test t before)

abbrev signature_of : Dict String String → String → String
signature_of signatures lane = elim (lookup signatures (clean_text lane)) [
  | none ↦ clean_text lane
  | some signature ↦ signature
]

abbrev pub lane_row : Dict String String → String → Row
lane_row signatures lane = record {
  kind = "lane";
  name = signature_of signatures lane;
  job = clean_text lane;
}

-- A round of the loop over the failed lanes: one without a failing test stands for itself.
abbrev pub add_lane : Dict String String → String → Written → Written
add_lane signatures lane before =
    if contains before.covered lane || contains before.seen (lane, lane)
    then before
    else record before {
      rows = before.rows ++ lane_row signatures lane ∷ [];
      seen = before.seen ++ (lane, lane) ∷ [];
    }

unfoldable pub add_lanes : Dict String String → List String → Written → Written
add_lanes signatures [] before = before
add_lanes signatures (lane ∷ lanes) before =
    add_lanes signatures lanes (add_lane signatures lane before)

-- The file of signatures, one for each lane.
abbrev add_signature : String × String → Dict String String → Dict String String
add_signature (lane, signature) signatures =
    if is_blank lane || is_blank signature
    then signatures
    else put signatures (clean_text lane) (clean_text signature)

unfoldable pub read_signatures : List String → Dict String String → Dict String String
read_signatures [] signatures = signatures
read_signatures (line ∷ lines) signatures =
    read_signatures lines (add_signature (partition 9 line) signatures)

abbrev pub nothing_written : Written
nothing_written = record { rows = []; seen = []; covered = [] }

-- The rows that junit.py writes, for the failed lanes that it is given.
unfoldable pub failing_rows :
    Dict String String → List File → Dict String String → List String → List Row
unfolding tested add_tests add_lanes
failing_rows lane_map files signatures lanes =
    let failed = select (λ lane. not (is_blank lane)) lanes in
    (add_lanes signatures failed (add_tests (tested lane_map files) nothing_written)).rows
