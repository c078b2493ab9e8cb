-- ===== src/MainRedGate/History.antt =====
-- `gate_runs` and `read_runs` of main-red-gate/main_red_gate.py: the runs that the gate judges.
use github.Base.{ℕ, zero, suc, String, Bool, true, false, not, ◌&&◌, ◌||◌, Option, none, some}
use github.Base.{List, [], ◌∷◌, ◌++◌, length, first, ltb, ◌==◌, string_eq, option_eq, if◌then◌else◌}
use github.Base.Text.{is_blank}
use github.Base.Dict.{Dict, lookup, put}
use github.MainRedGate.Trunk.{
  PushRun, failed, is_in, is_push, is_completed, Trunk, unknown, trunk_state,
}
use github.MainRedGate.Outcome.{Outcome, returned, incomplete, and_then}

-- A job of a run's latest attempt.
pub record Job : Type 0 where
  pub name : Option String
  pub status : Option String
  pub conclusion : Option String

-- What the API answers in one reading of the history: the pages of the workflow's runs, the status
-- of the comparison of a commit with the base, and the pages of a run's jobs. Beyond its last page a
-- list has empty pages.
pub record Api : Type 0 where
  pub history : List (Outcome (List PushRun))
  pub compare : String → Outcome (Option String)
  pub jobs : ℕ → List (Outcome (List Job))

abbrev pub page_size : ℕ
page_size = 100

abbrev pub page_limit : ℕ
page_limit = 10

-- `ancestry`
abbrev pub Ancestry : Type 0
Ancestry = Dict String Bool

-- Whether the commit is the base or an ancestor of it, by what is remembered of it, and the memory
-- of that.
unfoldable pub recall : Api → String → String → Ancestry → Option Bool → Outcome (Bool × Ancestry)
recall api base sha ancestry (some known) = returned (known, ancestry)
recall api base sha ancestry none =
    if sha == base
    then returned (true, put ancestry sha true)
    else and_then (api.compare sha) (λ status.
      let known = is_in status ("ahead" ∷ "identical" ∷ []) in
      returned (known, put ancestry sha known))

abbrev pub is_ancestor : Api → String → String → Ancestry → Outcome (Bool × Ancestry)
is_ancestor api base sha ancestry = recall api base sha ancestry (lookup ancestry sha)

-- The filters at the head of the loop of `gate_runs`; without a base every push run is judged.
unfoldable pub is_judged : Api → String → String → Ancestry → PushRun → Outcome (Bool × Ancestry)
unfolding recall
is_judged api branch base ancestry run =
    if not (is_push branch run)
    then returned (false, ancestry)
    else if is_blank base
    then returned (true, ancestry)
    else is_ancestor api base run.head_sha ancestry

abbrev pub is_named : String → Job → Bool
is_named check job = job.name == some check

-- What a page decides, by its first job of the name: the verdict, its absence, or the next page.
unfoldable pub page_found : Option Job → List Job → Outcome (Option Job) → Outcome (Option Job)
page_found (some job) jobs next = returned (some job)
page_found none jobs next = if ltb (length jobs) page_size then returned none else next

abbrev pub page_verdict : String → List Job → Outcome (Option Job) → Outcome (Option Job)
page_verdict check jobs next = page_found (first (is_named check) jobs) jobs next

-- The `while True` over the pages of a run's jobs.
unfoldable pub find_verdict : String → List (Outcome (List Job)) → Outcome (Option Job)
unfolding page_found
find_verdict check [] = returned none
find_verdict check (page ∷ pages) =
    let next = find_verdict check pages in and_then page (λ jobs. page_verdict check jobs next)

unfoldable pub project : PushRun → Option Job → PushRun
project run (some job) = record run { status = job.status; conclusion = job.conclusion }
project run none = record run { conclusion = none }

unfoldable pub projected : Api → String → PushRun → Outcome PushRun
unfolding find_verdict project
projected api check run =
    if is_blank check
    then returned run
    else and_then (find_verdict check (api.jobs run.id)) (λ verdict. returned (project run verdict))

abbrev pub is_conclusive : PushRun → Bool
is_conclusive run =
    is_completed run && (is_in run.conclusion failed || run.conclusion == some "success")

abbrev pub Selected : Type 0
Selected = List PushRun × Ancestry

-- One pass through the loop; `rest` is what the runs after it give.
unfoldable pub select_run :
    Api → String → PushRun → (Ancestry → Outcome Selected) → Bool × Ancestry → Outcome Selected
unfolding projected
select_run api check run rest (false, ancestry) = rest ancestry
select_run api check run rest (true, ancestry) = and_then (projected api check run) (λ seen.
    if is_conclusive seen
    then returned (seen ∷ [], ancestry)
    else and_then (rest ancestry) (λ after. returned (seen ∷ after.0, after.1)))

unfoldable pub gate_runs :
    Api → String → String → String → List PushRun → Ancestry → Outcome Selected
unfolding is_judged select_run
gate_runs api branch base check [] ancestry = returned ([], ancestry)
gate_runs api branch base check (run ∷ runs) ancestry =
    and_then (is_judged api branch base ancestry run)
      (select_run api check run (gate_runs api branch base check runs))

abbrev pub is_unknown : Trunk → Bool
is_unknown unknown = true
is_unknown _ = false

-- The loop of `read_runs` over the pages that are left of the limit.
unfoldable pub read_pages :
    Api → String → String → String → ℕ → List (Outcome (List PushRun)) → Ancestry → Outcome Selected
unfolding gate_runs
read_pages api branch base check zero pages ancestry = incomplete
read_pages api branch base check (suc left) [] ancestry = returned ([], ancestry)
read_pages api branch base check (suc left) (page ∷ pages) ancestry = and_then page (λ history.
    and_then (gate_runs api branch base check history ancestry) (λ here.
      if not (is_unknown (trunk_state here.0 branch)) || ltb (length history) page_size
      then returned here
      else and_then (read_pages api branch base check left pages here.1)
          (λ after. returned (here.0 ++ after.0, after.1))))

unfoldable pub read_runs : Api → String → String → String → Ancestry → Outcome Selected
unfolding read_pages
read_runs api branch base check ancestry =
    read_pages api branch base check page_limit api.history ancestry
