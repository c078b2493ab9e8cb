-- ===== src/NeedsPass/Verdict.antt =====
-- When `verdict` of needs_pass.py is empty: the jobs and results that let a change pass.
use github.Base.{String, ◌≡◌, refl, ◌≢◌, ◌↔◌, ◌⊎◌, inl, inr, Bool, true, false, not}
use github.Base.{List, [], ◌∷◌, map, arith, All, select, contains, string_eq}
use github.Base.{eq_iff}
use github.Base.{ap, All-of, All-at, select-empty, append-empty, map-empty}
use github.Base.Sorting.{sort, sort-empty, str_leb, All-sort}
use github.NeedsPass.{
  JobResult, text, Needs, by_job, is_result, required_for, missing, judge, judge_all, absent, null,
}
use github.NeedsPass.{verdict}

-- What a job's result must be: a success, a skip of a job that need not succeed, or, for an advisory
-- job that need not succeed, anything but a cancellation.
abbrev pub Acceptable : List String → List String → String × JobResult → Type 0
Acceptable wanted advisory (job, r) =
    (r ≡ text "success")
    ⊎ ((contains wanted job ≡ false)
        × ((r ≡ text "skipped") ⊎ ((contains advisory job ≡ true) × (r ≢ text "cancelled"))))

is_result_iff : (r : JobResult) (word : String) → (is_result r word ≡ true) ↔ (r ≡ text word)
is_result_iff (text r) word = (λ h. ap text ((eq_iff r word).0 h), λ h. (eq_iff r word).1 (cc h))
is_result_iff absent word = (λ h. cc, λ h. cc)
is_result_iff null word = (λ h. cc, λ h. cc)

judge-empty_iff :
    (wanted advisory : List String) (event : String) (entry : String × JobResult)
    → (judge wanted advisory event entry ≡ []) ↔ Acceptable wanted advisory entry
unfolding judge
judge-empty_iff wanted advisory event (job, r) = (
  λ h.
      ground
        (arith, is_result_iff r "success", is_result_iff r "skipped", is_result_iff r "cancelled"),
  λ h. elim h [
    | inl e ↦ rw e (ground arith)
    | inr (out, inl e) ↦ rw (e, out) (ground arith)
    | inr (out, inr (adv, e)) ↦ ground (arith, is_result_iff r "cancelled")
  ],
)

judge_all-empty_iff :
    (wanted advisory : List String) (event : String) (needs : Needs)
    → (judge_all wanted advisory event needs ≡ []) ↔ All (Acceptable wanted advisory) needs
unfolding judge_all
judge_all-empty_iff wanted advisory event [] = (λ h. tt, λ h. refl)
judge_all-empty_iff wanted advisory event (entry ∷ needs) =
    let one = judge-empty_iff wanted advisory event entry in
    let rest = judge_all-empty_iff wanted advisory event needs in
    let both =
      append-empty (judge wanted advisory event entry) (judge_all wanted advisory event needs) in
    (λ h. (one.0 (both.0 h).0, rest.0 (both.0 h).1), λ h. both.1 (one.1 h.0, rest.1 h.1))

missing-empty_iff :
    (wanted : List String) (needs : Needs)
    → (missing wanted needs ≡ [])
      ↔ All (λ job. contains (map (λ entry. entry.0) needs) job ≡ true) wanted
unfolding missing
missing-empty_iff wanted needs = (
  λ h.
      All-of _ wanted
        λ job m. not-false (All-at _ (chosen.0 ((sort-empty str_leb _).0 ((map-empty _ _).0 h))) m),
  λ h.
      (map-empty _ _).1 (
        (sort-empty str_leb _).1
          (chosen.1 (All-of _ wanted λ job m. ground (arith, All-at _ h m)))),
)
  where
    chosen :
        (select (λ job. not (contains (map (λ entry. entry.0) needs) job)) wanted ≡ [])
        ↔ All (λ job. not (contains (map (λ entry. entry.0) needs) job) ≡ false) wanted
    chosen = select-empty _ wanted

    not-false : {b : Bool} → not b ≡ false → b ≡ true
    not-false {b} h = ground arith

-- The verdict is empty, so the change passes, exactly when every job whose success the event asks
-- for is a dependency, and every dependency succeeded, or need not succeed and was skipped, or need
-- not succeed, is advisory and was not cancelled.
pub verdict-empty_iff :
    (needs : Needs) (required advisory : List String) (event : String) (unless_group : List String)
    → let wanted = required_for required unless_group event in
      (verdict needs required advisory event unless_group ≡ []) ↔ (
        All (λ job. contains (map (λ entry. entry.0) needs) job ≡ true) wanted
        × All (Acceptable wanted advisory) needs)
unfolding verdict
verdict-empty_iff needs required advisory event unless_group =
    let wanted = required_for required unless_group event in
    let absent = missing-empty_iff wanted needs in
    let judged = judge_all-empty_iff wanted advisory event (sort by_job needs) in
    let sorted = All-sort by_job (Acceptable wanted advisory) needs in
    let both =
      append-empty (missing wanted needs) (judge_all wanted advisory event (sort by_job needs)) in
    (
      λ h. (absent.0 (both.0 h).0, sorted.0 (judged.0 (both.0 h).1)),
      λ h. both.1 (absent.1 h.0, judged.1 (sorted.1 h.1)),
    )
