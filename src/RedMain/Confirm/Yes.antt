-- ===== src/RedMain/Confirm/Yes.antt =====
-- What the answer of confirm.py says of the two runs.
use mathlib.Core.List.{Memᴰ}
use github.Base.{String, ◌≡◌, refl, sym, ap, ◌↔◌, inl, inr, Bool, true, false, Option, some}
use github.Base.{List, [], ◌∷◌, arith, Eq, ◌==◌, string_eq, eq_iff, contains, select, Bool-cases}
use github.Base.{contains-Memᴰ, Memᴰ-contains, Memᴰ-select_iff}
use github.Base.Sorting.{Memᴰ-sort_iff, str_leb}
use github.RedMain.Units.{Row, Pair, pair_eq, pair_leb}
use github.RedMain.Confirm.{Answer, not_red, same_unit, same_job, other_way, different_unit}
use github.RedMain.Confirm.{units, jobs, common, name_of, changed, is_failed, answer, confirmed}
use github.RedMain.Confirm.{tests_answer, lanes_answer, jobs_answer}

module _ {ℓ} {A : Type ℓ} ⦃e : Eq A⦄ (le : A → A → Bool) where
  Memᴰ-common_iff : (x : A) (a b : List A) → Memᴰ x (common le a b) ↔ (Memᴰ x a × Memᴰ x b)
  unfolding common
  Memᴰ-common_iff x a b =
      let sorted = Memᴰ-sort_iff le x (select (contains b) a) in
      let chosen = Memᴰ-select_iff (contains b) x a in
      (
        λ m. let (n, h) = chosen.0 (sorted.0 m) in (n, contains-Memᴰ b h),
        λ h. sorted.1 (chosen.1 (h.0, Memᴰ-contains h.1)),
      )

-- The row of a kind, a name and a job.
abbrev row : String → Pair → Row
row kind (name, job) = record { kind = kind; name = name; job = job }

units_tail :
    (k : String) (p : Pair) (r : Row) (rows : List Row)
    → Memᴰ p (units rows k)
    → Memᴰ p (units (r ∷ rows) k)
unfolding units
units_tail k p r rows m = elim (Bool-cases (r.kind == k)) [
  | inl h ↦ rw (h, units) (Memᴰ.tail m)
  | inr h ↦ rw (h, units) m
]

Memᴰ-units : (k : String) (p : Pair) (rows : List Row) → Memᴰ p (units rows k) → Memᴰ (row k p) rows
unfolding units
Memᴰ-units k p [] m = elim m [ ]
Memᴰ-units k p (r ∷ rows) m = elim (Bool-cases (r.kind == k)) [
  | inl h ↦ kept ((eq_iff r.kind k).0 h) (rw (h, units) at m) (Memᴰ-units k p rows)
  | inr h ↦ Memᴰ.tail (Memᴰ-units k p rows (rw (h, units) at m))
]
  where
    kept :
        r.kind ≡ k
        → Memᴰ p ((r.name, r.job) ∷ units rows k)
        → (Memᴰ p (units rows k) → Memᴰ (row k p) rows)
        → Memᴰ (row k p) (r ∷ rows)
    kept h (Memᴰ.head e) f = Memᴰ.head (ground arith)
    kept h (Memᴰ.tail n) f = Memᴰ.tail (f n)

units-Memᴰ : (k : String) (p : Pair) (rows : List Row) → Memᴰ (row k p) rows → Memᴰ p (units rows k)
unfolding units
units-Memᴰ k p [] m = elim m [ ]
units-Memᴰ k p (r ∷ rows) (Memᴰ.head e) =
    rw ((eq_iff r.kind k).1 (sym (ap (λ (x : Row). x.kind) e)), units) (Memᴰ.head (ground arith))
units-Memᴰ k p (r ∷ rows) (Memᴰ.tail m) = units_tail k p r rows (units-Memᴰ k p rows m)

-- A row that both runs have.
abbrev pub InBoth : List Row → List Row → Row → Type 0
InBoth prev cur r = Memᴰ r prev × Memᴰ r cur

Memᴰ-common-units :
    (k : String) (p : Pair) (prev cur : List Row)
    → Memᴰ p (common pair_leb (units prev k) (units cur k)) ↔ InBoth prev cur (row k p)
Memᴰ-common-units k p prev cur =
    let both = Memᴰ-common_iff pair_leb p (units prev k) (units cur k) in
    (
      λ m. (Memᴰ-units k p prev (both.0 m).0, Memᴰ-units k p cur (both.0 m).1),
      λ h. both.1 (units-Memᴰ k p prev h.0, units-Memᴰ k p cur h.1),
    )

-- A row of a run by its name and job, whatever its kind.
abbrev pub Shows : List Row → String → String → Type 0
Shows rows name job = (kind : String) × Memᴰ (row kind (name, job)) rows

name_of-Shows :
    (rows : List Row) (job : String)
    → Memᴰ job (jobs rows)
    → (name : String) × (name_of rows job ≡ some name) × Shows rows name job
unfolding name_of jobs
name_of-Shows [] job m = elim m [ ]
name_of-Shows (r ∷ rows) job m = elim (Bool-cases (r.job == job)) [
  | inl h ↦ (r.name, rw (h, name_of), (r.kind, Memᴰ.head (ground (arith, eq_iff r.job job))))
  | inr h ↦ other h m (name_of-Shows rows job)
]
  where
    other :
        (r.job == job) ≡ false
        → Memᴰ job (r.job ∷ jobs rows)
        → (Memᴰ job (jobs rows)
            → (name : String) × (name_of rows job ≡ some name) × Shows rows name job)
        → (name : String) × (name_of (r ∷ rows) job ≡ some name) × Shows (r ∷ rows) name job
    other h (Memᴰ.head e) f = absurd (ground (arith, eq_iff r.job job))
    other h (Memᴰ.tail n) f =
        let (name, e, seen) = f n in (name, rw (h, name_of) e, (seen.0, Memᴰ.tail seen.1))

-- No unit of a kind failed in both runs.
abbrev pub NoneInBoth : String → List Row → List Row → Type 0
NoneInBoth kind prev cur = (p : Pair) → ¬ InBoth prev cur (row kind p)

-- What each answer says.
abbrev pub Explains : String → List Row → List Row → Answer → Type 0
Explains conclusion prev cur (not_red c) = (is_failed conclusion ≡ false) × (c ≡ conclusion)
Explains conclusion prev cur (same_unit p) =
    (is_failed conclusion ≡ true) × InBoth prev cur (row "test" p)
Explains conclusion prev cur (same_job p) =
    (is_failed conclusion ≡ true) × NoneInBoth "test" prev cur × InBoth prev cur (row "lane" p)
Explains conclusion prev cur (other_way job before now) =
    (is_failed conclusion ≡ true)
    × NoneInBoth "test" prev cur
    × NoneInBoth "lane" prev cur
    × Shows prev before job
    × Shows cur now job
Explains conclusion prev cur different_unit =
    (is_failed conclusion ≡ true) × ((job : String) → Memᴰ job (jobs prev) → ¬ Memᴰ job (jobs cur))

module _ (conclusion : String) (prev cur : List Row) (failed : is_failed conclusion ≡ true) where
  abbrev Explained : Option Answer → Type 0
  Explained o = (a : Answer) × (o ≡ some a) × Explains conclusion prev cur a

  jobs-Explained :
      NoneInBoth "test" prev cur
      → NoneInBoth "lane" prev cur
      → (l : List String) → common str_leb (jobs prev) (jobs cur) ≡ l
      → Explained (jobs_answer prev cur l)
  unfolding answer
  jobs-Explained nt nl [] e =
      (different_unit, refl, (failed, λ job m n. not_empty e ((in_common job).1 (m, n))))
    where
      in_common :
          (job : String)
          → Memᴰ job (common str_leb (jobs prev) (jobs cur))
            ↔ (Memᴰ job (jobs prev) × Memᴰ job (jobs cur))
      in_common job = Memᴰ-common_iff str_leb job (jobs prev) (jobs cur)

      not_empty : {job : String} {l : List String} → l ≡ [] → Memᴰ job l → ⊥
      not_empty e (Memᴰ.head h) = cc
      not_empty e (Memᴰ.tail n) = cc
  jobs-Explained nt nl (job ∷ more) e =
      let both = (Memᴰ-common_iff str_leb job (jobs prev) (jobs cur)).0 (rw e (Memᴰ.head refl)) in
      let (before, p, old) = name_of-Shows prev job both.0 in
      let (now, q, new) = name_of-Shows cur job both.1 in
      (other_way job before now, rw (p, q, changed), (failed, nt, nl, old, new))

  none_in_both :
      (k : String) → common pair_leb (units prev k) (units cur k) ≡ [] → NoneInBoth k prev cur
  none_in_both k e p both = absent (rw e at (Memᴰ-common-units k p prev cur).1 both)
    where
      absent : Memᴰ p [] → ⊥
      absent m = elim m [ ]

  lanes-Explained :
      NoneInBoth "test" prev cur
      → (l : List Pair) → common pair_leb (units prev "lane") (units cur "lane") ≡ l
      → Explained (lanes_answer prev cur l)
  unfolding answer
  lanes-Explained nt [] e = jobs-Explained nt (none_in_both "lane" e) _ refl
  lanes-Explained nt (p ∷ ps) e = (
    same_job p,
    refl,
    (failed, nt, (Memᴰ-common-units "lane" p prev cur).0 (rw e (Memᴰ.head refl))),
  )

  tests-Explained :
      (l : List Pair)
      → common pair_leb (units prev "test") (units cur "test") ≡ l
      → Explained (tests_answer prev cur l)
  unfolding answer
  tests-Explained [] e = lanes-Explained (none_in_both "test" e) _ refl
  tests-Explained (p ∷ ps) e =
      (same_unit p, refl, (failed, (Memᴰ-common-units "test" p prev cur).0 (rw e (Memᴰ.head refl))))

-- The script always has an answer, and it is true of the two runs: `same_unit` names a test that
-- failed in both; `same_job` a job that failed the same way in both, where no test did;
-- `other_way` a job that failed in both with the two names that it had, where no test and no lane
-- is in both; `different_unit` means that no job failed in both; and it says `not_red` exactly
-- where the previous run was neither a failure nor timed out.
pub answer-Explains :
    (conclusion : String) (prev cur : List Row)
    → (a : Answer) × (answer conclusion prev cur ≡ some a) × Explains conclusion prev cur a
unfolding answer
answer-Explains conclusion prev cur = elim (Bool-cases (is_failed conclusion)) [
  | inl h ↦ rw h (tests-Explained conclusion prev cur h _ refl)
  | inr h ↦ rw h (not_red conclusion, refl, (h, refl))
]

-- A unit is confirmed exactly when this run and the previous one both have its row.
pub Memᴰ-confirmed_iff :
    (prev cur : List Row) (r : Row) → Memᴰ r (confirmed prev cur) ↔ InBoth prev cur r
unfolding confirmed
Memᴰ-confirmed_iff prev cur r =
    let chosen = Memᴰ-select_iff (λ r. contains (units prev r.kind) (r.name, r.job)) r cur in
    (
      λ m.
          (Memᴰ-units r.kind (r.name, r.job) prev (contains-Memᴰ _ (chosen.0 m).1), (chosen.0 m).0),
      λ h. chosen.1 (h.1, Memᴰ-contains (units-Memᴰ r.kind (r.name, r.job) prev h.0)),
    )
