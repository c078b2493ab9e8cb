-- ===== src/CiOkPolling/Latest.antt =====
-- Which check runs count: what `latest_runs` of ci-ok-polling/ci_ok.py keeps.
use mathlib.Core.List.{Memᴰ}
use mathlib.Core.Path.{subst}
use mathlib.Core.Option.{some-injective}
use github.Base.{◌≡◌, sym, ap, ◌∙◌, ◌≢◌, ◌↔◌, inl, inr, true, false, not}
use github.Base.{some, List, [], ◌∷◌, map, arith, select, Bool-cases, ◌==◌, string_eq}
use github.Base.{option_eq, nat_eq, Memᴰ-map, Memᴰ-of_map, Memᴰ-select_iff, option_beq_iff}
use github.Base.Dict.{lookup}
use github.CiOkPolling.Runs.{CheckRun, Events, Placed, started, later}
use github.CiOkPolling.Runs.{stays, current, latest_runs, is_in, event_of}
use github.CiOkPolling.Newest.{
  AsNew, Memᴰ-place, place-Memᴰ, placed, table, table-cases, table-AsNew, is_newest_self,
  is_newest-inv,
}

-- The conclusions of a run that a newer one of its name replaces.
abbrev pub IsReplaced : CheckRun → Type 0
IsReplaced r = is_in r.conclusion ("cancelled" ∷ "stale" ∷ []) ≡ true

-- A run of the same name is not newer.
abbrev pub NotNewer : CheckRun → CheckRun → Type 0
NotNewer s r = later (started s) (started r) ≡ false

-- What is kept of the runs whose suites are not superseded.
pub record Latest (runs kept : List CheckRun) : Type 0 where
  pub from_runs : (r : CheckRun) → Memᴰ r kept → Memᴰ r runs
  pub replaced :
      (r s : CheckRun) → Memᴰ r kept → IsReplaced r → Memᴰ s runs → s.name ≡ r.name → NotNewer s r
  pub others : (r : CheckRun) → Memᴰ r runs → ¬ IsReplaced r → Memᴰ r kept
  pub newest_kept :
      (r : CheckRun) → Memᴰ r runs → (q : CheckRun) × Memᴰ q kept × (q.name ≡ r.name) × NotNewer r q

kept-Latest : (l : List CheckRun) → Latest l (map (λ p. p.1) (select (stays (table l)) (placed l)))
unfolding stays
kept-Latest l = record {
  from_runs = λ r m.
      let (p, n, e) = Memᴰ-of_map (λ p. p.1) _ m in
      subst (λ x. Memᴰ x l) (sym e) (place-Memᴰ 0 l (chosen p n).0);
  replaced = λ r s m c k same.
      let (p, n, e) = Memᴰ-of_map (λ p. p.1) _ m in
      subst (NotNewer s) (sym e) (
        not_newer p (chosen p n) (subst IsReplaced e c) s k
          (same ∙ ap (λ (x : CheckRun). x.name) e));
  others = λ r m c.
      let (i, n) = Memᴰ-place 0 l m in
      Memᴰ-map (λ (p : Placed). p.1)
        ((Memᴰ-select_iff (stays (table l)) (i, r) (placed l)).1 (n, kept_anyway (i, r) c));
  newest_kept = λ r m. let (i, n) = Memᴰ-place 0 l m in newest_one (i, r) n;
}
  where
    chosen :
        (p : Placed)
        → Memᴰ p (select (stays (table l)) (placed l))
        → Memᴰ p (placed l) × (stays (table l) p ≡ true)
    chosen p n = (Memᴰ-select_iff (stays (table l)) p (placed l)).0 n

    kept_anyway : (p : Placed) → ¬ IsReplaced p.1 → stays (table l) p ≡ true
    kept_anyway p c = elim (Bool-cases (is_in p.1.conclusion ("cancelled" ∷ "stale" ∷ []))) [
      | inl h ↦ absurd (c h)
      | inr h ↦ ground arith
    ]

    not_newer :
        (p : Placed)
        → Memᴰ p (placed l) × (stays (table l) p ≡ true)
        → IsReplaced p.1
        → (s : CheckRun) → Memᴰ s l
        → s.name ≡ p.1.name
        → NotNewer s p.1
    not_newer p (n, stay) c s k same =
        let (i, m) = Memᴰ-place 0 l k in
        let (q, e, new) = table-AsNew l m in
        let f = is_newest-inv l n (ground arith) in
        let g : q ≡ p = some-injective _ _ (sym e ∙ ap (lookup (table l)) same ∙ f) in
        subst (λ x. AsNew (i, s) x) g new

    newest_one :
        (p : Placed)
        → Memᴰ p (placed l)
        → (q : CheckRun) × Memᴰ q (map (λ p. p.1) (select (stays (table l)) (placed l)))
          × (q.name ≡ p.1.name)
          × NotNewer p.1 q
    newest_one p n =
        let (q, e, new) = table-AsNew l n in
        let (m, same) = table-cases l p.1.name e in
        let self = is_newest_self l (ap (lookup (table l)) same ∙ e) in
        (
          q.1,
          Memᴰ-map (λ (p : Placed). p.1)
              ((Memᴰ-select_iff (stays (table l)) q (placed l)).1 (m, ground arith)),
          same,
          new,
        )

-- A run counts unless its suite is superseded.
abbrev pub Counts : Events → CheckRun → Type 0
Counts events r = event_of events r.suite ≢ some "superseded"

Memᴰ-current_iff :
    (events : Events) (runs : List CheckRun) (r : CheckRun)
    → Memᴰ r (current events runs) ↔ (Memᴰ r runs × Counts events r)
unfolding current
Memᴰ-current_iff events runs r =
    let chosen = Memᴰ-select_iff (λ r. not (event_of events r.suite == some "superseded")) r runs in
    let same = option_beq_iff (event_of events r.suite) (some "superseded") in
    (
      λ m. ((chosen.0 m).0, λ e. absurd (ground (arith, (chosen.0 m).1, same.1 e))),
      λ (m, n). chosen.1 (
        m,
        elim (Bool-cases (event_of events r.suite == some "superseded")) [
          | inl h ↦ absurd (n (same.0 h))
          | inr h ↦ ground arith
        ],
      ),
    )

-- Of the runs whose suites are not superseded, or of all where there is no workflow-run data: every
-- one that is neither cancelled nor stale is kept, of each name a run is kept that none of them is
-- newer than, and a cancelled or stale run is kept only where none of its name is newer. Nothing else
-- is kept. The rule for a cancelled or stale run is the same with workflow-run data as without.
pub latest_runs-Latest :
    (runs : List CheckRun) (events : Events)
    → Latest (current events runs) (latest_runs runs events)
      × ((r : CheckRun) → Memᴰ r (current events runs) ↔ (Memᴰ r runs × Counts events r))
unfolding latest_runs
latest_runs-Latest runs events = (kept-Latest (current events runs), Memᴰ-current_iff events runs)
