-- ===== src/RedMain/Proof/Proven.antt =====
-- What stands behind a success and a failure of `checked_verdict`.
use github.Base.{
  String, ◌≡◌, ◌≢◌, ◌⊎◌, refl, ap, sym, inl, inr, Bool, true, false, Option, none, some,
}
use github.Base.{List, [], ◌∷◌, arith, select, Bool-cases, ◌==◌, string_eq, eq_iff}
use mathlib.Core.Option.{some-injective}
use github.Json.{Value, get, obj, str, is_text, is_truthy}
use github.RedMain.Proof.Origin.{Origin, eligible, ineligible, unknown, producer_origin}
use github.RedMain.Proof.Pages.{Row, and_then, page_limit, paged}
use github.RedMain.Proof.Checks.{ended, failure_before_cancel, authenticated_job}
use github.RedMain.Proof.Verdict.{
  verdict_of, is_open, failure_or_unknown, jobs_path, is_named, all_authenticated,
}
use github.RedMain.Proof.Verdict.{
  marked_verdict, run_verdict, aggregate_verdict, jobs_verdict, eligible_verdict, origin_verdict,
  checked_verdict,
}

-- A verdict that is the text `s` is not the other text `t`.
is_not :
    (s t : String) {P : Type 0}
    → (s == t) ≡ false
    → ◌≡◌ {A = Option Value} (some (str s)) (some (str t))
    → P
is_not s t d e =
    let f : (s == t) ≡ true = (eq_iff s t).1 (text_same (some-injective _ _ e)) in
    absurd (ground arith)
  where
    text_same : str s ≡ str t → s ≡ t
    text_same h = cc

-- What follows of a value that is bound follows of some value.
pub bound :
    {A B : Type 0} (o : Option A) (f : A → Option B) (b : B)
    → and_then o f ≡ some b
    → (a : A) × (o ≡ some a) × (f a ≡ some b)
bound none f b e = cc
bound (some a) f b e = (a, refl, e)

-- A job's verdict is a conclusion only where the job ended with it.
verdict_of-ended :
    (job : Row) (t : String)
    → verdict_of job ≡ str t
    → t ≢ "pending"
    → t ≢ "unknown"
    → ended t job ≡ true
unfolding verdict_of
verdict_of-ended job t e p u = elim (Bool-cases (is_text "completed" (get job "status"))) [
  | inr open_job ↦ absurd (p (text_same (sym (rw open_job at e))))
  | inl done ↦ elim (Bool-cases (is_truthy (get job "conclusion"))) [
    | inr blank ↦ absurd (u (text_same (sym (rw (done, blank) at e))))
    | inl told ↦
        let same : get job "conclusion" ≡ str t = rw (done, told) at e in
        rw (done, same) ((eq_iff t t).1 refl)
  ]
]
  where
    text_same : {s : String} → str t ≡ str s → t ≡ s
    text_same h = cc

pub differ : (s t : String) → (s == t) ≡ false → s ≢ t
differ s t d e = let f : (s == t) ≡ true = (eq_iff s t).1 e in absurd (ground arith)

module _ (api : String → Option Value) (run : Row) (repo : String) where
  -- Marked failures, all authenticated.
  abbrev pub AllMarked : List Row → Type 0
  AllMarked jobs =
      (select failure_before_cancel jobs ≢ [])
      × (all_authenticated api run repo (select failure_before_cancel jobs) ≡ some true)

  -- What a text read from the marked jobs may be.
  abbrev Marked : List Row → String → Type 0
  Marked marked t =
      (t ≡ "cancelled")
      ⊎ ((t ≡ "unknown")
          ⊎ ((t ≡ "failure") × (marked ≢ []) × (all_authenticated api run repo marked ≡ some true)))

  marked_verdict-Marked :
      (marked : List Row) (t : String)
      → marked_verdict api run repo marked ≡ some (str t)
      → Marked marked t
  marked_verdict-Marked [] t e = inl (text_same e)
    where
      text_same : ◌≡◌ {A = Option Value} (some (str "cancelled")) (some (str t)) → t ≡ "cancelled"
      text_same h = cc
  marked_verdict-Marked (job ∷ jobs) t e = let (ok, f, g) = bound _ _ _ e in by_ok ok f g
    where
      text_same : {s : String} → ◌≡◌ {A = Option Value} (some (str s)) (some (str t)) → t ≡ s
      text_same h = cc

      by_ok :
          (ok : Bool)
          → all_authenticated api run repo (job ∷ jobs) ≡ some ok
          → ◌≡◌ {A = Option Value} (some (failure_or_unknown ok)) (some (str t))
          → Marked (job ∷ jobs) t
      by_ok true f g = inr (inr (text_same g, λ h. cc, f))
      by_ok false f g = inr (inl (text_same g))

  -- A text is the verdict that was there, or it is read from the marked jobs of a cancelled run.
  run_verdict-cases :
      (jobs : List Row) (verdict : Value) (t : String)
      → run_verdict api run repo jobs verdict ≡ some (str t)
      → (verdict ≡ str t)
        ⊎ ((ended "cancelled" run ≡ true) × Marked (select failure_before_cancel jobs) t)
  unfolding run_verdict
  run_verdict-cases jobs verdict t e = elim (Bool-cases (ended "cancelled" run)) [
    | inl f ↦ inr (f, marked_verdict-Marked (select failure_before_cancel jobs) t (rw f at e))
    | inr f ↦ inl (some-injective _ _ (rw f at e))
  ]

  -- The one job of the name, authenticated, ended so.
  abbrev pub Aggregate : List Row → List Row → String → Type 0
  Aggregate jobs named t =
      (job : Row) × (named ≡ job ∷ [])
      × (authenticated_job api run job repo ≡ some true)
      × (ended t job ≡ true)

  run_verdict-success :
      (jobs : List Row) (verdict : Value)
      → run_verdict api run repo jobs verdict ≡ some (str "success")
      → verdict ≡ str "success"
  run_verdict-success jobs verdict e = elim (run_verdict-cases jobs verdict "success" e) [
    | inl f ↦ f
    | inr (cancelled, inl f) ↦ absurd (differ "success" "cancelled" refl f)
    | inr (cancelled, inr (inl f)) ↦ absurd (differ "success" "unknown" refl f)
    | inr (cancelled, inr (inr f)) ↦ absurd (differ "success" "failure" refl f.0)
  ]

  run_verdict-failure :
      (jobs : List Row) (verdict : Value)
      → run_verdict api run repo jobs verdict ≡ some (str "failure")
      → (verdict ≡ str "failure") ⊎ ((ended "cancelled" run ≡ true) × AllMarked jobs)
  run_verdict-failure jobs verdict e = elim (run_verdict-cases jobs verdict "failure" e) [
    | inl f ↦ inl f
    | inr (cancelled, inl f) ↦ absurd (differ "failure" "cancelled" refl f)
    | inr (cancelled, inr (inl f)) ↦ absurd (differ "failure" "unknown" refl f)
    | inr (cancelled, inr (inr f)) ↦ inr (cancelled, (f.1, f.2))
  ]

  -- The one aggregate, with the verdict that it gives.
  aggregate_verdict-cases :
      (jobs : List Row) (job : Row) (t : String)
      → is_open (str t) ≡ false
      → (t == "unknown") ≡ false
      → jobs_verdict api run repo jobs (job ∷ []) ≡ some (str t)
      → (authenticated_job api run job repo ≡ some true)
        × ((verdict_of job ≡ str t)
            ⊎ ((is_open (verdict_of job) ≡ true)
                × (run_verdict api run repo jobs (verdict_of job) ≡ some (str t))))
  unfolding jobs_verdict
  aggregate_verdict-cases jobs job t closed known e = let (ok, f, g) = bound _ _ _ e in by_ok ok f g
    where
      text_same : ◌≡◌ {A = Option Value} (some (str "unknown")) (some (str t)) → t ≡ "unknown"
      text_same h = cc

      by_ok :
          (ok : Bool)
          → authenticated_job api run job repo ≡ some ok
          → aggregate_verdict api run repo jobs job ok ≡ some (str t)
          → (authenticated_job api run job repo ≡ some true)
            × ((verdict_of job ≡ str t)
                ⊎ ((is_open (verdict_of job) ≡ true)
                    × (run_verdict api run repo jobs (verdict_of job) ≡ some (str t))))
      by_ok false f g = absurd (differ t "unknown" known (text_same g))
      by_ok true f g = elim (Bool-cases (is_open (verdict_of job))) [
        | inl h ↦ (f, inr (h, rw h at g))
        | inr h ↦ (f, inl (some-injective _ _ (rw h at g)))
      ]

  jobs_verdict-success :
      (jobs named : List Row)
      → jobs_verdict api run repo jobs named ≡ some (str "success")
      → Aggregate jobs named "success"
  unfolding jobs_verdict
  jobs_verdict-success jobs [] e =
      is_not "unknown" "success" refl (ap some (run_verdict-success jobs (str "unknown") e))
  jobs_verdict-success jobs (job ∷ []) e =
      let (auth, cases) = aggregate_verdict-cases jobs job "success" refl refl e in
      let told : verdict_of job ≡ str "success" = elim cases [
        | inl f ↦ f
        | inr f ↦ run_verdict-success jobs (verdict_of job) f.1
      ] in
      (
        job,
        refl,
        auth,
        verdict_of-ended job "success" told (differ "success" "pending" refl)
            (differ "success" "unknown" refl),
      )
  jobs_verdict-success jobs (job ∷ other ∷ more) e = is_not "unknown" "success" refl e

  jobs_verdict-failure :
      (jobs named : List Row)
      → jobs_verdict api run repo jobs named ≡ some (str "failure")
      → Aggregate jobs named "failure" ⊎ ((ended "cancelled" run ≡ true) × AllMarked jobs)
  unfolding jobs_verdict
  jobs_verdict-failure jobs [] e = elim (run_verdict-failure jobs (str "unknown") e) [
    | inl f ↦ is_not "unknown" "failure" refl (ap some f)
    | inr f ↦ inr f
  ]
  jobs_verdict-failure jobs (job ∷ []) e =
      let (auth, cases) = aggregate_verdict-cases jobs job "failure" refl refl e in
      let aggregate = λ (told : verdict_of job ≡ str "failure").
        verdict_of-ended job "failure" told (differ "failure" "pending" refl)
          (differ "failure" "unknown" refl) in
      elim cases [
        | inl f ↦ inl (job, refl, auth, aggregate f)
        | inr (h, g) ↦ elim (run_verdict-failure jobs (verdict_of job) g) [
          | inl f ↦ inl (job, refl, auth, aggregate f)
          | inr f ↦ inr f
        ]
      ]
  jobs_verdict-failure jobs (job ∷ other ∷ more) e = is_not "unknown" "failure" refl e

module _ (api : String → Option Value) (repo branch workflow name : String) where
  -- An eligible run whose jobs were all read.
  abbrev pub JobsRead : Value → Row → List Row → Type 0
  JobsRead run row jobs =
      (run ≡ obj row)
      × (producer_origin run repo branch workflow none ≡ eligible)
      × (paged api (jobs_path repo row) "jobs" page_limit ≡ some jobs)

  checked_verdict-text :
      (run : Value) (t : String)
      → checked_verdict api run repo branch workflow name ≡ some (str t)
      → (t == "unknown") ≡ false
      → (t == "ineligible") ≡ false
      → (row : Row) × (jobs : List Row) × JobsRead run row jobs
        × (jobs_verdict api row repo jobs (select (is_named name) jobs) ≡ some (str t))
  unfolding checked_verdict eligible_verdict
  checked_verdict-text run t e u i =
      by_origin run (producer_origin run repo branch workflow none) refl e
    where
      text_same : {s : String} → ◌≡◌ {A = Option Value} (some (str s)) (some (str t)) → t ≡ s
      text_same h = cc

      by_origin :
          (v : Value) (origin : Origin)
          → producer_origin v repo branch workflow none ≡ origin
          → origin_verdict api origin v repo name ≡ some (str t)
          → (row : Row) × (jobs : List Row) × JobsRead v row jobs
            × (jobs_verdict api row repo jobs (select (is_named name) jobs) ≡ some (str t))
      by_origin v ineligible f g = absurd (differ t "ineligible" i (text_same g))
      by_origin v unknown f g = absurd (differ t "unknown" u (text_same g))
      by_origin (obj row) eligible f g =
          let (jobs, h, k) = bound _ _ _ g in (row, jobs, (refl, f, h), k)
      by_origin _ eligible f g = absurd (differ t "unknown" u (text_same g))

  -- A success is never read from anything but one authenticated job: the run is a genuine push of the
  -- workflow to the branch, all its jobs were read, exactly one of them has the aggregate's name, its
  -- check is that of GitHub Actions for it, and it is completed with the conclusion success.
  pub checked_verdict-success :
      (run : Value)
      → checked_verdict api run repo branch workflow name ≡ some (str "success")
      → (row : Row) × (jobs : List Row) × JobsRead run row jobs
        × Aggregate api row repo jobs (select (is_named name) jobs) "success"
  checked_verdict-success run e =
      let (row, jobs, read, f) = checked_verdict-text run "success" e refl refl in
      (row, jobs, read, jobs_verdict-success api row repo jobs _ f)

  -- A failure is that of the one authenticated aggregate, or the run is completed and cancelled, it
  -- has jobs in which a step failed before the hook that cancels, and every one of these is
  -- authenticated.
  pub checked_verdict-failure :
      (run : Value)
      → checked_verdict api run repo branch workflow name ≡ some (str "failure")
      → (row : Row) × (jobs : List Row) × JobsRead run row jobs
        × (Aggregate api row repo jobs (select (is_named name) jobs) "failure"
            ⊎ ((ended "cancelled" row ≡ true) × AllMarked api row repo jobs))
  checked_verdict-failure run e =
      let (row, jobs, read, f) = checked_verdict-text run "failure" e refl refl in
      (row, jobs, read, jobs_verdict-failure api row repo jobs _ f)
