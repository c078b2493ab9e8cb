-- ===== src/RedMain/Gate/Tests.antt =====
-- Runs of gate.py and revert_guard.py, and the theorems of the gate at concrete data.
use github.Base.{library, String, ◌≡◌, ◌↔◌, refl, true, some, none}
use github.Base.Text.{
  every, strip_prefix, partition, split_lines, strip_of, has_char, codes, starts_with, lstrip_of,
  ends_longer,
}
use github.Json.{
  Value, Fields, no_fields, field, no_items, item, get, find, set_field, str, int, nat, arr,
}
use github.RedMain.RevertGuard.{guard, labelled}
use github.RedMain.Gate.{gate, migrations, read_ci}
use github.RedMain.Gate.Taken.{IsWellFormed, IsFrom}
use github.RedMain.Gate.Declared.{table_of, OptsIn, gate-IsWellFormed, gate-act_iff}

abbrev manifest : String
manifest =
    "version = \"1\"\n[ci]\nmerge = \"optimistic\" # yes\non_red = \"revert\"\nrevert_hold_utc = \"19:00-22:00\"\n"

abbrev repr : Value → String
repr v = "'a value'"

act_test : gate none repr true (some manifest) ≡ record {
  verdict = "act";
  mode = "revert";
  owner = "owner:ops";
  paths = migrations;
  hold = "19:00-22:00";
  basis = "sylphx.toml [ci] merge=optimistic on_red=revert";
}
unfolding gate set_field every strip_prefix partition split_lines strip_of has_char codes
    starts_with get find library
act_test = refl

gate-IsWellFormed_example :
    IsWellFormed (gate none repr true (some manifest))
    × IsFrom (table_of none repr true (some manifest)) (gate none repr true (some manifest))
gate-IsWellFormed_example = gate-IsWellFormed none repr true (some manifest)

gate-act_iff_example : ((gate none repr true (some manifest)).verdict ≡ "act") ↔ (
    (true ≡ true)
    × (table : Fields) × (read_ci none repr (some manifest) ≡ some table)
    × OptsIn none repr table)
gate-act_iff_example = gate-act_iff none repr true (some manifest)

abbrev as_str : Value → String
as_str (str s) = s
as_str (int (nat n)) = "12"
as_str v = ""

guard_test :
    guard as_str
      (λ s. s)
      (field "number"
        (int (nat 12))
        (field "labels" (arr (item (str "team:p0") no_items)) no_fields))
      ""
      "#7, 8"
    ≡ some (labelled "12" "team:p0")
unfolding guard lstrip_of ends_longer get find library
guard_test = refl
