-- ===== src/RedMain/Confirm.antt =====
-- .github/red_main/confirm.py: does the previous completed run confirm this one's failure?
pub mod Yes
use github.Base.{String, ◌<>◌, Bool, true, false, Option, none, some, List, [], ◌∷◌, map}
use github.Base.{Eq, ◌==◌, string_eq, contains, select, first, if◌then◌else◌}
use github.Base.Sorting.{sort, str_leb}
use github.Base.Text.{is_blank}
use github.RedMain.Units.{Row, Pair, pair_eq, pair_leb, read_confirm}

-- What the script prints.
pub data Answer : Type 0 where
  not_red : String → Answer
  same_unit same_job : Pair → Answer
  other_way : String → String → String → Answer
  different_unit : Answer

-- `units(rows, kind)`
unfoldable pub units : List Row → String → List Pair
units [] kind = []
units (row ∷ rows) kind =
    let rest = units rows kind in if row.kind == kind then (row.name, row.job) ∷ rest else rest

-- `sorted(a & b)`
unfoldable pub common {ℓ} : {A : Type ℓ} ⦃e : Eq A⦄ → (A → A → Bool) → List A → List A → List A
common le a b = sort le (select (contains b) a)

unfoldable pub jobs : List Row → List String
jobs rows = map (λ row. row.job) rows

-- `next(name for _kind, name, j in rows if j == job)`, with `none` for its StopIteration
unfoldable pub name_of : List Row → String → Option String
name_of [] job = none
name_of (row ∷ rows) job =
    let rest = name_of rows job in if row.job == job then some row.name else rest

changed : String → Option String → Option String → Option Answer
changed job (some before) (some now) = some (other_way job before now)
changed job _ _ = none

jobs_answer : List Row → List Row → List String → Option Answer
jobs_answer prev cur [] = some different_unit
jobs_answer prev cur (job ∷ more) = changed job (name_of prev job) (name_of cur job)

lanes_answer : List Row → List Row → List Pair → Option Answer
lanes_answer prev cur [] = jobs_answer prev cur (common str_leb (jobs prev) (jobs cur))
lanes_answer prev cur (lane ∷ lanes) = some (same_job lane)

tests_answer : List Row → List Row → List Pair → Option Answer
tests_answer prev cur [] =
    lanes_answer prev cur (common pair_leb (units prev "lane") (units cur "lane"))
tests_answer prev cur (test ∷ tests) = some (same_unit test)

abbrev pub is_failed : String → Bool
is_failed conclusion = contains ("failure" ∷ "timed_out" ∷ []) conclusion

-- `none` is an exception.
unfoldable pub answer : String → List Row → List Row → Option Answer
unfolding tests_answer lanes_answer jobs_answer changed
answer conclusion prev cur =
    if is_failed conclusion
    then tests_answer prev cur (common pair_leb (units prev "test") (units cur "test"))
    else some (not_red conclusion)

-- The units of this run that the previous run confirms, which the optional fourth argument takes.
unfoldable pub confirmed : List Row → List Row → List Row
confirmed prev cur = select (λ row. contains (units prev row.kind) (row.name, row.job)) cur

unfoldable pub print_answer : Answer → String
print_answer (not_red conclusion) =
    "no the previous completed run was '"
    <> ((if is_blank conclusion then "not found" else conclusion) <> "'")
print_answer (same_unit (name, job)) =
    "yes the same unit failed on both runs: " <> (name <> (" (" <> (job <> ")")))
print_answer (same_job (name, job)) =
    "yes the same job failed the same way on both runs: " <> (job <> (" (" <> (name <> ")")))
print_answer (other_way job before now) =
    "no "
    <> (job
        <> (" failed on both runs, but not the same way (previous run: "
            <> (before <> ("; this run: " <> (now <> ")")))))
print_answer different_unit = "no the previous completed run failed a different unit"

-- The script: what it prints, and what it writes where a fourth argument names a file.
unfoldable pub main :
    String
    → Option (List String)
    → Option (List String)
    → String
    → Option (String × Option (List Row))
unfolding answer confirmed print_answer
main conclusion prev_file cur_file aggregate =
    let prev = read_confirm aggregate prev_file in
    let cur = read_confirm aggregate cur_file in
    elim (answer conclusion prev cur) [
      | none ↦ none
      | some a ↦
          some (print_answer a, if is_failed conclusion then some (confirmed prev cur) else none)
    ]
