-- ===== src/RedMain/Proof/Complete.antt =====
-- `failed_jobs` gives exactly the failing jobs.
use github.Base.{
  ℕ, String, ◌<>◌, ◌≡◌, ◌⊎◌, refl, ap, sym, ◌∙◌, inl, inr, Bool, true, false, not, ◌&&◌, ◌||◌,
  Option, none, some,
}
use github.Base.{
  List, [], ◌∷◌, ◌++◌, map, arith, All, select, Bool-cases, is_empty, eq_iff, string_eq,
  if◌then◌else◌,
}
use mathlib.Core.Option.{some-injective}
use mathlib.Core.List.{append-nil, append_assoc}
use github.Base.Decimal.{positive_in}
use github.Json.{Value, Fields, field, no_fields, get, find, str, set_field}
use github.RedMain.Proof.Pages.{Row, page_limit, paged}
use github.RedMain.Proof.Checks.{failure_before_cancel}
use github.RedMain.Proof.Proven.{bound}
use github.RedMain.Proof.Failed.{
  is_of, is_pending, is_settled, has_failed, normalize, Found, nothing_found, keep_failed, run_of,
  is_run,
}
use github.RedMain.Proof.Failed.{
  prove_root, read_job, read_jobs, settle_pending, find_failed, failed_jobs, kept_root, run_path,
  is_among, name_of,
}
use github.Base.Text.{has_control}

-- A job that fails the run: it is done, and it failed or cancelled itself after a failure.
abbrev pub counts : Row → Bool
counts job = not (is_pending job) && (failure_before_cancel job || has_failed job)

-- A self-cancelled job is listed as a failed one that ended before its hook.
abbrev pub as_failed : Row → Row
as_failed job = if failure_before_cancel job then normalize job else job

find-set_field : (key : String) (v : Value) (fs : Fields) → find (set_field key v fs) key ≡ some v
unfolding find set_field
find-set_field key v no_fields = rw ((eq_iff key key).1 refl) refl
find-set_field key v (field k w fs) =
    ground (arith, eq_iff key key, eq_iff k key, find-set_field key v fs)

get-set_field : (key : String) (v : Value) (fs : Fields) → get (set_field key v fs) key ≡ v
unfolding get
get-set_field key v fs = rw (find-set_field key v fs) refl

has_failed-normalize : (job : Row) → has_failed (normalize job) ≡ true
unfolding normalize
has_failed-normalize job =
    ap (is_among ("failure" ∷ "timed_out" ∷ [])) (get-set_field "conclusion" (str "failure") _)

-- The failed jobs after a round.
abbrev Adds : Row → Found → Found → Type 0
Adds job before after =
    (after.failed ≡ before.failed ++ (if counts job then as_failed job ∷ [] else []))
    × ((is_pending job ≡ true) ⊎ (is_settled job ≡ true))

keep_failed-Adds :
    (job : Row) (before after : Found)
    → keep_failed job before ≡ some after
    → after.failed ≡ before.failed ++ (if has_failed job then job ∷ [] else [])
unfolding keep_failed
keep_failed-Adds job before after e = elim (Bool-cases (has_failed job)) [
  | inr passed ↦ rw passed (
      ap (λ f. f.failed) (sym (some-injective before after (rw passed at e)))
      ∙ sym (append-nil before.failed))
  | inl failed ↦ elim (Bool-cases (has_control (name_of job))) [
    | inl bad ↦ absurd (nothing (rw (failed, bad) at e))
    | inr good ↦
        rw failed (ap (λ f. f.failed) (sym (some-injective _ after (rw (failed, good) at e))))
  ]
]
  where
    nothing : ◌≡◌ {A = Option Found} none (some after) → ⊥
    nothing g = cc

module _ (api : String → Option Value) (repo branch workflow : String) (identity : ℕ) where
  prove_root-Adds :
      (job : Row) (before after : Found)
      → prove_root api repo branch workflow identity job before ≡ some after
      → after.failed ≡ before.failed ++ normalize job ∷ []
  unfolding prove_root
  prove_root-Adds job before after e =
      let (body, f, g) = bound (api (run_path api repo branch workflow identity)) _ after e in
      let (run, h, k) = bound (run_of body) _ after g in
      let (ok, l, m) =
        bound _ (kept_root api repo branch workflow identity job run before) after k in
      by_ok run ok m
    where
      nothing : ◌≡◌ {A = Option Found} none (some after) → ⊥
      nothing g = cc

      by_ok :
          (run : Row) (ok : Bool)
          → kept_root api repo branch workflow identity job run before ok ≡ some after
          → after.failed ≡ before.failed ++ normalize job ∷ []
      by_ok run false m = absurd (nothing m)
      by_ok run true m =
          rw (has_failed-normalize job) at (keep_failed-Adds (normalize job) _ after m)

  -- A round adds the job if it counts.
  read_job-Adds :
      (job : Row) (before after : Found)
      → read_job api repo branch workflow identity job before ≡ some after
      → Adds job before after
  unfolding read_job
  read_job-Adds job before after e = elim (Bool-cases (is_of identity job)) [
    | inr other ↦ absurd (nothing (rw other at e))
    | inl mine ↦ elim (Bool-cases (is_pending job)) [
      | inl pending ↦ (
        rw pending (
            ap (λ f. f.failed) (sym (some-injective _ after (rw (mine, pending) at e)))
            ∙ sym (append-nil before.failed)),
        inl pending,
      )
      | inr done ↦ elim (Bool-cases (is_settled job)) [
        | inr odd ↦ absurd (nothing (rw (mine, done, odd) at e))
        | inl settled ↦ elim (Bool-cases (failure_before_cancel job)) [
          | inl root ↦ (
            rw (done, root)
                (prove_root-Adds job before after (rw (mine, done, settled, root) at e)),
            inr settled,
          )
          | inr plain ↦ (
            rw (done, plain)
                (keep_failed-Adds job before after (rw (mine, done, settled, plain) at e)),
            inr settled,
          )
        ]
      ]
    ]
  ]
    where
      nothing : ◌≡◌ {A = Option Found} none (some after) → ⊥
      nothing g = cc

  read_jobs-Adds :
      (jobs : List Row) (before after : Found)
      → read_jobs api repo branch workflow identity jobs before ≡ some after
      → (after.failed ≡ before.failed ++ map as_failed (select counts jobs))
        × All (λ job. (is_pending job ≡ true) ⊎ (is_settled job ≡ true)) jobs
  unfolding read_jobs
  read_jobs-Adds [] before after e = (
    ap (λ f. f.failed) (sym (some-injective before after e)) ∙ sym (append-nil before.failed),
    tt,
  )
  read_jobs-Adds (job ∷ jobs) before after e =
      let (next, f, g) =
        bound (read_job api repo branch workflow identity job before)
          (read_jobs api repo branch workflow identity jobs) after e in
      let (one, state) = read_job-Adds job before next f in
      let (others, states) = read_jobs-Adds jobs next after g in
      (
        others
            ∙ ap (λ l. l ++ map as_failed (select counts jobs)) one
            ∙ joined job jobs before.failed,
        (state, states),
      )
    where
      joined :
          (job : Row) (jobs found : List Row)
          → (found ++ (if counts job then as_failed job ∷ [] else []))
              ++ map as_failed (select counts jobs)
            ≡ found ++ map as_failed (select counts (job ∷ jobs))
      joined job jobs found = elim (Bool-cases (counts job)) [
        | inl yes_counts ↦
            rw yes_counts
              (append_assoc found (as_failed job ∷ []) (map as_failed (select counts jobs)))
        | inr other ↦
            rw other (ap (λ l. l ++ map as_failed (select counts jobs)) (append-nil found))
      ]

  settle_pending-failed :
      (before after : Found)
      → settle_pending api repo branch workflow identity before ≡ some after
      → after.failed ≡ before.failed
  unfolding settle_pending
  settle_pending-failed before after e = elim (Bool-cases (is_empty before.pending)) [
    | inl nothing_left ↦
        ap (λ f. f.failed) (sym (some-injective before after (rw nothing_left at e)))
    | inr left ↦
        let (body, f, g) =
          bound (api (run_path api repo branch workflow identity)) _ after (rw left at e) in
        let (run, h, k) = bound (run_of body) _ after g in
        elim (Bool-cases (is_run identity run)) [
          | inl done ↦ ap (λ f. f.failed) (sym (some-injective _ after (rw done at k)))
          | inr active ↦ absurd (nothing (rw active at k))
        ]
  ]
    where
      nothing : ◌≡◌ {A = Option Found} none (some after) → ⊥
      nothing g = cc

-- The jobs that are given are exactly the failing ones among all the jobs of the run, in order: those
-- that failed or timed out, and those that cancelled themselves after a failed step, these as failed
-- and cut before the hook. Every job of the run is pending, or done with a known conclusion.
pub failed_jobs-Complete :
    (api : String → Option Value) (repo branch workflow identity : String) (rows : List Row)
    → failed_jobs api repo branch workflow identity ≡ some rows
    → (n : ℕ) × (positive_in identity ≡ some n)
      × (jobs : List Row) × (paged api
            (run_path api repo branch workflow n <> "/jobs?filter=latest")
            "jobs"
            page_limit
          ≡ some jobs)
      × (rows ≡ map as_failed (select counts jobs))
      × All (λ job. (is_pending job ≡ true) ⊎ (is_settled job ≡ true)) jobs
unfolding failed_jobs find_failed
failed_jobs-Complete api repo branch workflow identity rows e =
    let (n, f, g) = bound (positive_in identity) _ rows e in
    let ((jobs, settled), h, k) = bound (find_failed api repo branch workflow n) _ rows g in
    let (listed, l, m) =
      bound
        (paged api (run_path api repo branch workflow n <> "/jobs?filter=latest") "jobs" page_limit)
        _ (jobs, settled) h in
    let (found, o, p) =
      bound (read_jobs api repo branch workflow n listed nothing_found) _ (jobs, settled) m in
    let (last, q, r) =
      bound (settle_pending api repo branch workflow n found) (λ x. some (listed, x))
        (jobs, settled) p in
    let (exact, states) = read_jobs-Adds api repo branch workflow n listed nothing_found found o in
    let same : last ≡ settled = ap (λ x. x.1) (some-injective (listed, last) (jobs, settled) r) in
    (
      n,
      f,
      listed,
      l,
      sym (some-injective _ rows k)
          ∙ ap (λ x. x.failed) (sym same)
          ∙ settle_pending-failed api repo branch workflow n found last q
          ∙ exact,
      states,
    )
