-- ===== src/CiOkPolling/Verdict.antt =====
-- What `evaluate` of ci-ok-polling/ci_ok.py says: when it passes, and what fails it at once.
use github.Base.{String, ◌≡◌, refl, ◌≢◌, ◌↔◌, ◌⊎◌, inl, inr, true, false, not, some}
use github.Base.{
  List, [], ◌∷◌, ◌++◌, map, arith, All, All-of, All-at, select, is_empty, is_empty_iff,
}
use github.Base.{select-empty, append-empty, map-empty, Bool-cases, ◌==◌, string_eq, option_eq}
use github.Base.{option_beq_iff, listed_empty}
use github.Base.Sorting.{sort, str_leb, All-sort}
use github.CiOkPolling.Runs.{CheckRun, Suite, is_completed, is_in, bad}
use github.CiOkPolling.Evaluate.{pass, pending, Inputs, relevant, waits, failed_start}
use github.CiOkPolling.Evaluate.{
  has_failed, pending_names, bad_names, unmet, concluded, evaluate_runs, evaluate,
}
use github.CiOkPolling.Evaluate.{settle, nothing_ran, cannot_recover, required_line}

-- A run that does not stand in the way.
abbrev pub Good : CheckRun → Type 0
Good r = (is_completed r.status ≡ true) × (is_in r.conclusion bad ≡ false)

-- A suite that neither waits for its jobs nor failed to start.
abbrev pub Quiet : Inputs → Suite → Type 0
Quiet x s = (waits x s ≡ false) × (failed_start x s ≡ false)

-- What a pass asks of the runs that count.
abbrev pub Passes : Inputs → List CheckRun → Type 0
Passes x rs =
    All Good rs
    × All (Quiet x) x.suites
    × All (λ name. concluded rs name ≡ some "success") x.required
    × ((rs ≢ []) ⊎ (x.allow_none ≡ true))

pending_names-empty :
    (x : Inputs) (rs : List CheckRun)
    → (pending_names x rs ≡ [])
      ↔ (All (λ r. not (is_completed r.status) ≡ false) rs × All (λ s. waits x s ≡ false) x.suites)
unfolding pending_names
pending_names-empty x rs = listed_empty _ _ _ _ rs x.suites

bad_names-empty :
    (x : Inputs) (rs : List CheckRun)
    → (bad_names x rs ≡ [])
      ↔ (All (λ r. has_failed r ≡ false) rs × All (λ s. failed_start x s ≡ false) x.suites)
unfolding bad_names
bad_names-empty x rs = listed_empty _ _ _ _ rs x.suites

unmet-empty :
    (x : Inputs) (rs : List CheckRun)
    → (unmet x rs ≡ []) ↔ All (λ name. concluded rs name ≡ some "success") x.required
unfolding unmet
unmet-empty x rs =
    let chosen =
      select-empty (λ name. not (concluded rs name == some "success")) (sort str_leb x.required) in
    let sorted = All-sort str_leb (λ name. concluded rs name ≡ some "success") x.required in
    (
      λ h. sorted.0 (
          All-of _ _ λ name m.
            (option_beq_iff (concluded rs name) (some "success")).0
              (ground (arith, All-at _ (chosen.0 ((map-empty _ _).0 h)) m))),
      λ h. (map-empty _ _).1 (
          chosen.1 (
            All-of _ _ λ name m. ground (
              arith,
              (option_beq_iff (concluded rs name) (some "success")).1 (All-at _ (sorted.1 h) m),
            ))),
    )

nothing_ran-empty :
    (x : Inputs) (rs : List CheckRun)
    → (nothing_ran x rs ≡ []) ↔ ((rs ≢ []) ⊎ (x.allow_none ≡ true))
nothing_ran-empty x [] = (λ h. ground arith, λ h. elim h [ inl n ↦ absurd (n refl) | inr e ↦ rw e ])
nothing_ran-empty x (r ∷ rs) = (λ h. inl (λ e. cc), λ h. refl)

settled-pass :
    (reasons names : List String) → ((settle pass reasons names).0 ≡ pass) ↔ (reasons ≡ [])
settled-pass [] names = (λ h. refl, λ h. refl)
settled-pass (r ∷ rs) names = (λ h. cc, λ h. cc)

settled-pending : (reasons names : List String) → (settle pending reasons names).0 ≢ pass
settled-pending [] names h = cc
settled-pending (r ∷ rs) names h = cc

-- The lists that `evaluate` looks at, and what their emptiness means.
Passes-iff :
    (x : Inputs) (rs : List CheckRun)
    → ((pending_names x rs ≡ []) × (bad_names x rs ++ (unmet x rs ++ nothing_ran x rs) ≡ []))
      ↔ Passes x rs
Passes-iff x rs =
    let waiting = pending_names-empty x rs in
    let failing = bad_names-empty x rs in
    let required = unmet-empty x rs in
    let nothing = nothing_ran-empty x rs in
    let outer = append-empty (bad_names x rs) (unmet x rs ++ nothing_ran x rs) in
    let inner = append-empty (unmet x rs) (nothing_ran x rs) in
    (
      λ (p, q).
          let (w, v) = waiting.0 p in
          let (b, f) = failing.0 (outer.0 q).0 in
          let (u, n) = inner.0 (outer.0 q).1 in
          (
            All-of Good rs (λ r m. ground (arith, All-at _ w m, All-at _ b m)),
            All-of (Quiet x) x.suites (λ s m. (All-at _ v m, All-at _ f m)),
            required.0 u,
            nothing.0 n,
          ),
      λ (good, quiet, met, some_run). (
        waiting.1 (
          All-of _ rs (λ r m. ground (arith, All-at Good good m)),
          All-of _ x.suites (λ s m. (All-at (Quiet x) quiet m).0),
        ),
        outer.1 (
          failing.1 (
            All-of _ rs (λ r m. ground (arith, All-at Good good m)),
            All-of _ x.suites (λ s m. (All-at (Quiet x) quiet m).1),
          ),
          inner.1 (required.1 met, nothing.1 some_run),
        ),
      ),
    )

evaluate_runs-pass :
    (x : Inputs) (rs : List CheckRun) → ((evaluate_runs x rs).0 ≡ pass) ↔ Passes x rs
unfolding evaluate_runs
evaluate_runs-pass x rs = elim (Bool-cases (is_empty (pending_names x rs))) [
  | inl e ↦
      rw (e, evaluate_runs)
        (
          λ h. (Passes-iff x rs).0 ((is_empty_iff _).0 e, (settled-pass _ _).0 h),
          λ h. (settled-pass _ _).1 ((Passes-iff x rs).1 h).1,
        )
  | inr e ↦
      rw (e, evaluate_runs)
        (
          λ h. absurd (settled-pending _ _ h),
          λ h. absurd (ground (arith, (is_empty_iff _).1 ((Passes-iff x rs).1 h).0)),
        )
]

-- The gate reads a pass exactly when every check run that counts has completed without a bad
-- conclusion, no suite without jobs waits or failed to start, every required check's conclusion is
-- success, and some check run counts, unless none is allowed.
pub evaluate-pass_iff : (x : Inputs) → ((evaluate x).0 ≡ pass) ↔ Passes x (relevant x)
unfolding evaluate
evaluate-pass_iff x = evaluate_runs-pass x (relevant x)

-- What keeps the gate waiting: a run or a suite that has not finished, with none that failed.
abbrev pub Waiting : Inputs → List CheckRun → Type 0
Waiting x rs =
    (¬ (All (λ r. is_completed r.status ≡ true) rs × All (λ s. waits x s ≡ false) x.suites))
    × All (λ r. has_failed r ≡ false) rs
    × All (λ s. failed_start x s ≡ false) x.suites
    × All (λ r. cannot_recover x r ≡ false) rs

settle-pending :
    (reasons names : List String) → ((settle pending reasons names).0 ≡ pending) ↔ (reasons ≡ [])
settle-pending [] names = (λ h. refl, λ h. refl)
settle-pending (r ∷ rs) names = (λ h. cc, λ h. cc)

settle-not-pending : (reasons names : List String) → (settle pass reasons names).0 ≢ pending
settle-not-pending [] names h = cc
settle-not-pending (r ∷ rs) names h = cc

-- The two lists that decide whether to wait.
Waiting-iff :
    (x : Inputs) (rs : List CheckRun)
    → ((pending_names x rs ≢ [])
        × (bad_names x rs
              ++ map (λ r. required_line r.name r.conclusion) (select (cannot_recover x) rs)
            ≡ []))
      ↔ Waiting x rs
Waiting-iff x rs =
    let waiting = pending_names-empty x rs in
    let failing = bad_names-empty x rs in
    let hopeless = select-empty (cannot_recover x) rs in
    let lines = map-empty (λ r. required_line r.name r.conclusion) (select (cannot_recover x) rs) in
    let both =
      append-empty (bad_names x rs)
        (map (λ r. required_line r.name r.conclusion) (select (cannot_recover x) rs)) in
    (
      λ (p, q).
          let (b, f) = failing.0 (both.0 q).0 in
          (
            (λ (done, quiet).
                p (waiting.1 (All-of _ rs (λ r m. ground (arith, All-at _ done m)), quiet))),
            b,
            f,
            hopeless.0 (lines.0 (both.0 q).1),
          ),
      λ (busy, b, f, h). (
        (λ e.
            let (done, quiet) = waiting.0 e in
            busy (All-of _ rs (λ r m. ground (arith, All-at _ done m)), quiet)),
        both.1 (failing.1 (b, f), lines.1 (hopeless.1 h)),
      ),
    )

-- The gate waits exactly while something has not finished, no check that counts or suite has failed,
-- and no required check has concluded without success. So a failure ends it at once, whatever is
-- still running.
pub evaluate-pending_iff : (x : Inputs) → ((evaluate x).0 ≡ pending) ↔ Waiting x (relevant x)
unfolding evaluate evaluate_runs
evaluate-pending_iff x = elim (Bool-cases (is_empty (pending_names x (relevant x)))) [
  | inl e ↦
      rw (e, evaluate_runs)
        (
          λ h. absurd (settle-not-pending _ _ h),
          λ h. absurd (((Waiting-iff x (relevant x)).1 h).0 ((is_empty_iff _).0 e)),
        )
  | inr e ↦
      rw (e, evaluate_runs)
        (
          λ h.
              (Waiting-iff x (relevant x)).0
                ((λ p. absurd (ground (arith, (is_empty_iff _).1 p))), (settle-pending _ _).0 h),
          λ h. (settle-pending _ _).1 ((Waiting-iff x (relevant x)).1 h).1,
        )
]
