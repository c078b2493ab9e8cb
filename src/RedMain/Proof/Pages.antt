-- ===== src/RedMain/Proof/Pages.antt =====
-- `paged` of red_main/proof.py: the pages of a counted list, complete or an exception. `reader` gives
-- the body at a path, and `none` is an exception.
use github.Base.{ℕ, zero, suc, ◌-◌, min, String, ◌<>◌, Bool, true, false, ◌&&◌, Option, none, some}
use github.Base.{List, [], ◌∷◌, ◌++◌, length, contains, ◌==◌, nat_eq, if◌then◌else◌}
use github.Base.Text.{split}
use github.Base.Decimal.{decimal}
use github.Json.{Value, Fields, get, obj, count_of, list_of, positive_of}

abbrev pub page_limit : ℕ
page_limit = 5

abbrev pub run_page_limit : ℕ
run_page_limit = 50

-- A JSON object that is a row of a list.
abbrev pub Row : Type 0
Row = Fields

-- The rows read, with their identities.
abbrev pub Gathered : Type 0
Gathered = List Row × List ℕ

abbrev pub add_row : Option ℕ → Row → Gathered → Option Gathered
add_row none row gathered = none
add_row (some id) row (rows, ids) =
    if contains ids id then none else some (rows ++ row ∷ [], ids ++ id ∷ [])

abbrev pub and_then {ℓ κ} : {A : Type ℓ} {B : Type κ} → Option A → (A → Option B) → Option B
and_then none f = none
and_then (some a) f = f a

-- The rows of a batch are added: each must be an object with a positive id that no row had before.
unfoldable pub add_rows : List Value → Gathered → Option Gathered
add_rows [] gathered = some gathered
add_rows (obj row ∷ batch) gathered =
    and_then (add_row (positive_of (get row "id")) row gathered) (add_rows batch)
add_rows (_ ∷ batch) gathered = none

abbrev has_query : List String → Bool
has_query (before ∷ after ∷ more) = true
has_query _ = false

-- `f"{path}{'&' if '?' in path else '?'}per_page=100&page={page}"`
unfoldable pub page_path : String → ℕ → String
page_path path page =
    path
    <> ((if has_query (split b'?' path) then "&" else "?")
        <> ("per_page=100&page=" <> decimal page))

-- What is agreed on as the total: that of the first page.
abbrev pub total_or : Option ℕ → ℕ → ℕ
total_or none count = count
total_or (some total) count = total

-- The rows of a page are added if its count and its length are as they must be.
unfoldable pub accept_rows : Option ℕ → Gathered → ℕ → List Value → Option (ℕ × Gathered)
unfolding add_rows
accept_rows total gathered count batch =
    let agreed = total_or total count in
    if count == agreed && length batch == min 100 (agreed - length gathered.0)
    then and_then (add_rows batch gathered) (λ more. some (agreed, more))
    else none

unfoldable pub read_page : String → Option ℕ → Gathered → Value → Option (ℕ × Gathered)
unfolding accept_rows
read_page key total gathered (obj body) =
    and_then (count_of (get body "total_count"))
      (λ count. and_then (list_of (get body key)) (accept_rows total gathered count))
read_page key total gathered _ = none

-- All rows, or what the next pages give.
abbrev pub go_on : (Option ℕ → Gathered → Option (List Row)) → ℕ × Gathered → Option (List Row)
go_on rest (agreed, gathered) =
    if length gathered.0 == agreed then some gathered.0 else rest (some agreed) gathered

unfoldable pub paged_from :
    (reader : String → Option Value)
    → String
    → String
    → ℕ
    → ℕ
    → Option ℕ
    → Gathered
    → Option (List Row)
unfolding read_page page_path
paged_from reader path key zero page total gathered = none
paged_from reader path key (suc left) page total gathered =
    and_then (reader (page_path path page)) (λ body.
      and_then (read_page key total gathered body)
        (go_on (paged_from reader path key left (suc page))))

unfoldable pub paged : (reader : String → Option Value) → String → String → ℕ → Option (List Row)
unfolding paged_from
paged reader path key limit = paged_from reader path key limit 1 none ([], [])
