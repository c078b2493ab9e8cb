-- ===== src/RedMain/Proof/Failed.antt =====
-- The failing jobs of a run, and how each failed: from `failed_jobs` to `failed_units` of
-- red_main/proof.py. What `original_failure_notes` recovers from the logs, `str` of a JSON value, and
-- the substitutions of `assertion` are parameters.
use github.Base.{ℕ, zero, suc, String, ◌<>◌, Bool, true, false, not, ◌&&◌, Option, none, some}
use github.Base.{
  List, [], ◌∷◌, ◌++◌, map, select, length, contains, distinct, ltb, is_empty, ◌==◌, nat_eq,
  string_eq, option_eq, if◌then◌else◌,
}
use github.Base.Sorting.{sort, str_leb}
use github.Base.Text.{strip, is_blank, join, words, replace, cut, has_control, blank_controls}
use github.Base.Decimal.{decimal, positive_in}
use github.Base.Dict.{Dict, lookup}
use github.Json.{
  Value, get, obj, str, arr, int, nat, text_of, list_of, count_of, same, is_text, is_truthy,
  set_field, items_of,
}
use github.RedMain.Proof.Origin.{Origin, eligible, producer_origin, holds}
use github.RedMain.Proof.Pages.{Row, and_then, page_limit, paged}
use github.RedMain.Proof.Checks.{
  all_rows, steps_of, before_hook, failure_before_cancel, also, id_of, linked_check_id,
  authenticated_job,
}

abbrev pub pending_statuses : List String
pending_statuses = "queued" ∷ "in_progress" ∷ "waiting" ∷ "pending" ∷ "requested" ∷ []

abbrev pub conclusions : List String
conclusions =
    "success" ∷ "failure" ∷ "timed_out" ∷ "cancelled" ∷ "skipped" ∷ "neutral" ∷ "action_required"
    ∷ "startup_failure" ∷ "stale" ∷ []

-- `value in words`
abbrev pub is_among : List String → Value → Bool
is_among names v = holds (contains names) (text_of v)

-- The job has a name and is of the run.
abbrev pub is_of : ℕ → Row → Bool
is_of identity job =
    holds (λ s. not (is_blank (strip s))) (text_of (get job "name"))
    && count_of (get job "run_id") == some identity

abbrev pub is_pending : Row → Bool
is_pending job = is_among pending_statuses (get job "status")

abbrev pub is_settled : Row → Bool
is_settled job =
    is_text "completed" (get job "status") && is_among conclusions (get job "conclusion")

abbrev pub has_failed : Row → Bool
has_failed job = is_among ("failure" ∷ "timed_out" ∷ []) (get job "conclusion")

abbrev steps_or_nil : Option (List Row) → List Row
steps_or_nil none = []
steps_or_nil (some steps) = steps

-- A job that cancelled itself is a failed one that ended before its hook.
unfoldable pub normalize : Row → Row
normalize job =
    set_field "conclusion" (str "failure")
      (set_field "steps" (arr (items_of (before_hook (steps_or_nil (steps_of job))))) job)

-- What the loop has found: the failed jobs, the pending ones, the self-cancelled ones as they were
-- read, and the run that was read last.
pub record Found : Type 0 where
  pub failed : List Row
  pub pending : List Row
  pub roots : List Row
  pub run : Option Row

abbrev pub nothing_found : Found
nothing_found = record { failed = []; pending = []; roots = []; run = none }

abbrev pub name_of : Row → String
name_of job = elim (text_of (get job "name")) [ none ↦ "" | some s ↦ s ]

-- The end of a round: a failed job is kept, unless its name has a control character.
unfoldable pub keep_failed : Row → Found → Option Found
keep_failed job found =
    if has_failed job
    then if has_control (name_of job)
      then none
      else some (record found { failed = found.failed ++ job ∷ [] })
    else some found

abbrev pub run_of : Value → Option Row
run_of (obj run) = some run
run_of _ = none

-- `run.get("id") == identity`, completed
abbrev pub is_run : ℕ → Row → Bool
is_run identity run =
    same (get run "id") (int (nat identity)) && is_text "completed" (get run "status")

module _ (api : String → Option Value) (repo branch workflow : String) (identity : ℕ) where
  abbrev pub run_path : String
  run_path = "repos/" <> (repo <> ("/actions/runs/" <> decimal identity))

  abbrev pub is_eligible : Origin → Bool
  is_eligible eligible = true
  is_eligible _ = false

  abbrev pub kept_root : Row → Row → Found → Bool → Option Found
  kept_root job run found false = none
  kept_root job run found true =
      keep_failed (normalize job) (record found { roots = found.roots ++ job ∷ []; run = some run })

  -- A job that cancelled itself counts only where its run and its check prove it.
  unfoldable pub prove_root : Row → Found → Option Found
  unfolding keep_failed
  prove_root job found = and_then (api run_path) (λ body. and_then (run_of body) (λ run.
      and_then
        (also
          (is_run identity run
            && is_text "cancelled" (get run "conclusion")
            && is_eligible (producer_origin (obj run) repo branch workflow none))
          (authenticated_job api run job repo))
        (kept_root job run found)))

  -- One round of the loop.
  unfoldable pub read_job : Row → Found → Option Found
  unfolding prove_root
  read_job job found =
      if not (is_of identity job)
      then none
      else if is_pending job
      then some (record found { pending = found.pending ++ job ∷ [] })
      else if not (is_settled job)
      then none
      else if failure_before_cancel job
      then prove_root job found
      else keep_failed job found

  unfoldable pub read_jobs : List Row → Found → Option Found
  unfolding read_job
  read_jobs [] found = some found
  read_jobs (job ∷ jobs) found = and_then (read_job job found) (read_jobs jobs)

  -- Pending jobs cannot have failed where the run is completed.
  unfoldable pub settle_pending : Found → Option Found
  settle_pending found =
      if is_empty found.pending
      then some found
      else and_then (api run_path) (λ body.
        and_then (run_of body)
          (λ run. if is_run identity run then some (record found { run = some run }) else none))

  -- The jobs of the run with what is found in them.
  unfoldable pub find_failed : Option (List Row × Found)
  unfolding read_jobs settle_pending
  find_failed = and_then (paged api (run_path <> "/jobs?filter=latest") "jobs" page_limit) (λ jobs.
      and_then (read_jobs jobs nothing_found)
        (λ found. and_then (settle_pending found) (λ settled. some (jobs, settled))))

-- `failed_jobs` without annotations
unfoldable pub failed_jobs :
    (api : String → Option Value) → String → String → String → String → Option (List Row)
unfolding find_failed
failed_jobs api repo branch workflow identity =
    and_then (positive_in identity)
      (λ n. and_then (find_failed api repo branch workflow n) (λ found. some found.1.failed))

unfoldable pub lane_of : Row → String
lane_of job = replace b',' ";" (name_of job)

-- `failed_lanes`
unfoldable pub failed_lanes :
    (api : String → Option Value) → String → String → String → String → Option String
unfolding failed_jobs lane_of
failed_lanes api repo branch workflow identity =
    and_then (failed_jobs api repo branch workflow identity)
      (λ jobs. some (join "," (map lane_of jobs)))

abbrev pub is_note : Row → Bool
is_note note =
    holds (λ s. true) (text_of (get note "message"))
    && holds (λ s. true) (text_of (get note "annotation_level"))

abbrev all_notes : List Row → Bool
all_notes [] = true
all_notes (note ∷ notes) = is_note note && all_notes notes

-- The loop of `check_annotations` over the pages that are left.
unfoldable pub annotations_from :
    (api : String → Option Value) → String → ℕ → ℕ → ℕ → List Row → Option (List Row)
annotations_from api repo check_id zero page notes = none
annotations_from api repo check_id (suc left) page notes =
    and_then
      (api (
        "repos/"
        <> (repo
            <> ("/check-runs/"
                <> (decimal check_id <> ("/annotations?per_page=100&page=" <> decimal page))))))
      (λ body. and_then (list_of body) (λ batch. and_then (all_rows batch) (λ rows.
        let more = annotations_from api repo check_id left (suc page) (notes ++ rows) in
        if not (all_notes rows)
        then none
        else if ltb (length rows) 100
        then some (notes ++ rows)
        else more)))

unfoldable pub check_annotations : (api : String → Option Value) → String → ℕ → Option (List Row)
unfolding annotations_from
check_annotations api repo check_id = annotations_from api repo check_id page_limit 1 []

abbrev pub failed_steps : List String
failed_steps = "failure" ∷ "timed_out" ∷ "cancelled" ∷ []

abbrev pub signature_limit : ℕ
signature_limit = 300

-- `f(x) or default` of texts
abbrev or_else : String → String → String
or_else s default = if is_blank s then default else s

module _ (mask : String → String) (python_str : Value → String) where
  -- `assertion` of a text; `mask` replaces what changes from run to run
  abbrev pub assertion : String → String
  assertion message = mask (join " " (words message))

  abbrev step_name : Row → String
  step_name step =
      join " " (words (if is_truthy (get step "name") then python_str (get step "name") else ""))

  abbrev pub message_of : Row → String
  message_of note = elim (text_of (get note "message")) [ none ↦ "" | some s ↦ s ]

  abbrev pub signature_text : Row → List Row → List Row → String
  signature_text job steps annotations =
      let failed =
        map step_name (select (λ step. is_among failed_steps (get step "conclusion")) steps) in
      let errors = sort str_leb (
        distinct (
          map (λ note. assertion (message_of note))
            (select (λ note. is_text "failure" (get note "annotation_level")) annotations))) in
      python_str (get job "conclusion")
      <> (" at "
          <> (or_else (join " + " failed) "no failed step"
              <> (": " <> or_else (join " | " errors) "no error line")))

  unfoldable pub lane_signature : Row → List Row → Option String
  lane_signature job annotations =
      and_then (steps_of job) (λ steps.
        some (cut signature_limit (blank_controls (signature_text job steps annotations))))

  module _ (api : String → Option Value) (repo branch workflow : String)
      (recover : Row → List Row → List Row → Option (Dict ℕ (List Row))) where
    -- What the logs give for the jobs that cancelled themselves.
    abbrev recovered_of : List Row → Found → Option (Dict ℕ (List Row))
    recovered_of jobs found =
        if is_empty found.roots
        then some []
        else and_then found.run (λ run. recover run found.roots jobs)

    abbrev notes_of : Row → Option (List Row) → Option (List Row)
    notes_of job (some notes) = some notes
    notes_of job none = and_then (linked_check_id job repo) (check_annotations api repo)

    unfoldable pub annotated_jobs : Dict ℕ (List Row) → List Row → Option (List (Row × List Row))
    unfolding check_annotations
    annotated_jobs recovered [] = some []
    annotated_jobs recovered (job ∷ jobs) =
        and_then (notes_of job (lookup recovered (id_of job)))
          (λ notes. and_then (annotated_jobs recovered jobs) (λ rest. some ((job, notes) ∷ rest)))

    -- `failed_jobs` with annotations: each job with its own
    unfoldable pub annotated : String → Option (List (Row × List Row))
    unfolding find_failed annotated_jobs
    annotated identity = and_then (positive_in identity) (λ n.
        and_then (find_failed api repo branch workflow n) (λ (jobs, found).
          and_then (recovered_of jobs found) (λ recovered. annotated_jobs recovered found.failed)))

    -- A line for each failed job: its lane and its signature.
    unfoldable pub unit_lines : List (Row × List Row) → Option (List String)
    unfolding lane_signature lane_of
    unit_lines [] = some []
    unit_lines ((job, notes) ∷ jobs) = and_then (lane_signature job notes) (λ signature.
        and_then (unit_lines jobs) (λ lines. some ((lane_of job <> ("\t" <> signature)) ∷ lines)))

    unfoldable pub failed_units : String → Option String
    unfolding annotated unit_lines
    failed_units identity =
        and_then (annotated identity)
          (λ jobs. and_then (unit_lines jobs) (λ lines. some (join "\n" lines)))
