-- ===== src/RedMain/Junit/Tests.antt =====
-- Runs of junit.py and `read_junit`, and their theorem at concrete data.
use mathlib.Core.List.{Memᴰ}
use github.Base.{library, String, ◌≡◌, ◌↔◌, refl, some, List, [], ◌∷◌}
use github.Base.Text.{words, cut, strip_prefix, ends_longer}
use github.RedMain.Junit.Agree.{failing_rows-read_junit_iff}
use github.RedMain.Junit.{File, Case, read_junit, failing_rows, test_row}

abbrev case_of : String → List String → Case
case_of name kinds = record { name = some name; classname = some "Suite"; kinds = kinds }

abbrev file : File
file = record {
  filename = "unit.xml";
  directory = "junit-unit";
  entry = "junit-unit";
  cases =
      some
        (case_of "adds  one" ("failure" ∷ []) ∷ case_of "b" [] ∷ case_of "c" ("skipped" ∷ []) ∷ []);
}

read_test :
    read_junit [] (file ∷ [])
    ≡ (("Suite::adds one", "unit") ∷ [], ("Suite::b", "unit") ∷ [], "unit" ∷ "unit" ∷ "unit" ∷ [])
unfolding read_junit words cut strip_prefix ends_longer library
read_test = refl

rows_test :
    failing_rows [] (file ∷ []) (("lint", "failure at lint") ∷ []) ("unit" ∷ "lint" ∷ [])
    ≡ test_row ("Suite::adds one", "unit")
      ∷ record { kind = "lane"; name = "failure at lint"; job = "lint" }
      ∷ []
unfolding failing_rows words cut strip_prefix ends_longer library
rows_test = refl

failing_rows-read_junit_iff_example :
    Memᴰ
      (test_row ("Suite::adds one", "unit"))
      (failing_rows [] (file ∷ []) [] ("unit" ∷ "lint" ∷ []))
    ↔ Memᴰ ("Suite::adds one", "unit") (read_junit [] (file ∷ [])).0
failing_rows-read_junit_iff_example =
    failing_rows-read_junit_iff [] (file ∷ []) [] ("unit" ∷ "lint" ∷ []) ("Suite::adds one", "unit")
