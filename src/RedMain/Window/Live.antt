-- ===== src/RedMain/Window/Live.antt =====
-- What an earlier run shows: `live_loader` of red_main/window.py, and the walk over it. `none` is an
-- exception.
use github.Base.{ap}
use github.Base.{ℕ, ◌+◌, String, ◌<>◌, Bool, not, ◌&&◌, Option, none, some, ◌≡◌, inl, inr}
use github.Base.{List, [], ◌∷◌, select, is_empty, take, Bool-cases, if◌then◌else◌, string_eq}
use github.Base.Dict.{Dict, put}
use github.Base.Decimal.{decimal}
use github.Base.Text.{replace, strip, is_blank}
use github.Json.{Value, get, obj, text_of, is_text, same}
use mathlib.Core.Option.{some-injective}
use github.RedMain.Units.{Row as Unit_row}
use github.RedMain.Units.{Pair}
use github.RedMain.Window.{Evidence, clears, Found, walk, find_window}
use github.RedMain.Proof.Origin.{holds}
use github.RedMain.Proof.Pages.{Row, and_then, page_limit, paged}
use github.RedMain.Proof.Checks.{ended, id_of, failure_before_cancel, authenticated_job}
use github.RedMain.Proof.Verdict.{checked_verdict}
use github.RedMain.Proof.Proven.{bound}

abbrev pub Jobs : Type 0
Jobs = Dict String (Option String)

abbrev pub no_evidence : Evidence
no_evidence = record { jobs = []; failing = []; passing = []; covered = [] }

-- `junit` is what the run's store shows, or nothing where its download or reading raises.
module _ (api : String → Option Value) (junit : Row → List Pair × List Pair × List String)
    (repo branch workflow aggregate : String) where
  -- A job that is done and of the run.
  abbrev is_done : Row → Row → Bool
  is_done run job =
      holds (λ s. not (is_blank (strip s))) (text_of (get job "name"))
      && same (get job "run_id") (get run "id")
      && is_text "completed" (get job "status")

  -- A job that cancelled itself after a failure, in a cancelled run, has failed if it is authentic.
  unfoldable pub conclusion_in : Row → Row → Option (Option String)
  conclusion_in run job =
      if ended "cancelled" run && failure_before_cancel job
      then and_then (authenticated_job api run job repo)
          (λ ok. some (if ok then some "failure" else text_of (get job "conclusion")))
      else some (text_of (get job "conclusion"))

  abbrev name_in : Row → String
  name_in job = elim (text_of (get job "name")) [ none ↦ "" | some name ↦ replace b',' ";" name ]

  unfoldable pub jobs_from : Row → List Row → Jobs → Option Jobs
  unfolding conclusion_in
  jobs_from run [] jobs = some jobs
  jobs_from run (job ∷ rest) jobs =
      if is_done run job
      then and_then (conclusion_in run job)
          (λ conclusion. jobs_from run rest (put jobs (name_in job) conclusion))
      else jobs_from run rest jobs

  -- The jobs of the run: none where they cannot be read.
  abbrev pub rows_of : Row → List Row
  rows_of run =
      elim (paged api
        ("repos/" <> (repo <> ("/actions/runs/" <> (decimal (id_of run) <> "/jobs?filter=latest"))))
        "jobs" page_limit) [ none ↦ [] | some rows ↦ rows ]

  abbrev with_junit : List Pair × List Pair × List String → Jobs → Evidence
  with_junit (failing, passing, covered) jobs = record {
    jobs = jobs;
    failing = failing;
    passing = passing;
    covered = covered;
  }

  abbrev pub evidence_of : Row → Option Evidence
  evidence_of run =
      and_then (jobs_from run (rows_of run) []) (λ jobs. some (with_junit (junit run) jobs))

  -- A cancelled run shows nothing unless its verdict is a failure.
  unfoldable pub load : Row → Option Evidence
  unfolding jobs_from
  load run =
      if is_text "cancelled" (get run "conclusion")
      then and_then (checked_verdict api (obj run) repo branch workflow aggregate)
          (λ verdict. if is_text "failure" verdict then evidence_of run else some no_evidence)
      else evidence_of run

  -- The loop of `find_window` where loading may raise.
  unfoldable pub walk_live : List Unit_row → List Row → ℕ → Option (Found Row)
  unfolding load
  walk_live units [] read = some (record { run = none; cleared = []; read = read })
  walk_live units (run ∷ runs) read = and_then (load run) (λ evidence.
      let cleared = select (λ unit. clears unit evidence) units in
      if is_empty cleared
      then walk_live units runs (read + 1)
      else some (record { run = some run; cleared = cleared; read = read + 1 }))

  unfoldable pub find_live : List Unit_row → List Row → ℕ → Option (Found Row)
  unfolding walk_live
  find_live units runs limit = walk_live units (take limit runs) 0

  abbrev or_nothing : Option Evidence → Evidence
  or_nothing none = no_evidence
  or_nothing (some evidence) = evidence

  -- What a run shows, or nothing where loading raises.
  abbrev pub shown : Row → Evidence
  shown run = or_nothing (load run)

  shown_of : (run : Row) (evidence : Evidence) → load run ≡ some evidence → shown run ≡ evidence
  shown_of run evidence e = ap or_nothing e

  walk_live-walk :
      (units : List Unit_row) (runs : List Row) (read : ℕ) (found : Found Row)
      → walk_live units runs read ≡ some found
      → walk units shown runs read ≡ found
  unfolding walk_live walk
  walk_live-walk units [] read found e = some-injective _ _ e
  walk_live-walk units (run ∷ runs) read found e =
      let (evidence, f, g) = bound (load run) _ _ e in
      let seen = shown_of run evidence f in
      elim (Bool-cases (is_empty (select (λ unit. clears unit evidence) units))) [
        | inl nothing ↦
            rw (seen, nothing) (walk_live-walk units runs (read + 1) found (rw nothing at g))
        | inr some_cleared ↦ rw (seen, some_cleared) (some-injective _ _ (rw some_cleared at g))
      ]

  -- Where no run that is read raises, the walk over the live history finds what `find_window` finds
  -- in what the runs show.
  pub find_live-find_window :
      (units : List Unit_row) (runs : List Row) (limit : ℕ) (found : Found Row)
      → find_live units runs limit ≡ some found
      → find_window units shown runs limit ≡ found
  unfolding find_live find_window
  find_live-find_window units runs limit found e = walk_live-walk units (take limit runs) 0 found e
