-- ===== src/RedMain/Window/Judge.antt =====
-- What `judge` of window.py says of a candidate run.
use mathlib.Core.List.{Memᴰ}
use github.Base.{String, ◌≡◌, refl, sym, ◌↔◌, ◌⊎◌, inl, inr, true, false, Option, none, some}
use github.Base.{List, [], ◌∷◌, map, arith, Bool-cases, contains, select, ◌==◌}
use github.Base.{eq_iff, string_eq, option_eq, Memᴰ-map, Memᴰ-of_map, Memᴰ-select_iff, ◌&&◌}
use github.Base.{contains-Memᴰ, Memᴰ-contains, not-contains_iff}
use mathlib.Core.Path.{subst}
use github.Base.{select-Memᴰ, option_beq_iff}
use github.Base.Sorting.{sort, Memᴰ-sort_iff}
use github.RedMain.Units.{Row, row_eq, row_leb}
use github.RedMain.Window.{Judgement, fail, inconclusive, pass, may_hide, judge_loop, judge}

-- A failing row that can hide a target: one of the target's job, and for a test a row of the whole
-- job.
abbrev pub Hides : List Row → Row → Type 0
Hides failing target =
    (r : Row) × Memᴰ r failing × (r.job ≡ target.job) × (target.kind ≡ "test" → r.kind ≡ "lane")

in_job :
    {r : Row} {rows : List Row} {job : String}
    → r.job ≡ job
    → Memᴰ r rows
    → contains (map (λ row. row.job) rows) job ≡ true
in_job {rows = rows} p m =
    subst (λ j. contains (map (λ row. row.job) rows) j ≡ true) p
      (Memᴰ-contains (Memᴰ-map (λ row. row.job) m))

may_hide_iff :
    (failing : List Row) (target : Row) → (may_hide failing target ≡ true) ↔ Hides failing target
unfolding may_hide
may_hide_iff failing target = elim (Bool-cases (target.kind == "test")) [
  | inl h ↦ (
    λ e.
        let (r, m, p) =
          Memᴰ-of_map (λ row. row.job) (select (λ row. row.kind == "lane") failing)
            (contains-Memᴰ _ (rw (h, may_hide) at e)) in
        let (n, lane) = (Memᴰ-select_iff (λ row. row.kind == "lane") r failing).0 m in
        (r, n, sym p, λ _. (eq_iff r.kind "lane").0 lane),
    λ (r, m, p, lane).
        rw (h, may_hide)
          (in_job p (
            select-Memᴰ (λ row. row.kind == "lane") m
              ((eq_iff r.kind "lane").1 (lane ((eq_iff _ _).0 h))))),
  )
  | inr h ↦ (
    λ e.
        let (r, m, p) =
          Memᴰ-of_map (λ row. row.job) failing (contains-Memᴰ _ (rw (h, may_hide) at e)) in
        (r, m, sym p, λ k. absurd (ground (arith, eq_iff target.kind "test"))),
    λ (r, m, p, lane). rw (h, may_hide) (in_job p m),
  )
]

-- No target is among the failing units.
abbrev pub NoTarget : List Row → List Row → Type 0
NoTarget targets failing = (t : Row) → Memᴰ t targets → ¬ Memᴰ t failing

-- What each judgement says.
abbrev pub Judged : List Row → List Row → Judgement → Type 0
Judged targets failing (fail t) = Memᴰ t targets × Memᴰ t failing
Judged targets failing (inconclusive job) =
    NoTarget targets failing × ((t : Row) × Memᴰ t targets × (t.job ≡ job) × Hides failing t)
Judged targets failing pass =
    NoTarget targets failing × ((t : Row) → Memᴰ t targets → ¬ Hides failing t)

-- The same of the loop, with what it has found hidden so far.
abbrev LoopJudged : List Row → List Row → Option String → Judgement → Type 0
LoopJudged targets failing hidden (fail t) = Memᴰ t targets × Memᴰ t failing
LoopJudged targets failing hidden (inconclusive job) =
    NoTarget targets failing
    × ((hidden ≡ some job)
        ⊎ ((hidden ≡ none) × ((t : Row) × Memᴰ t targets × (t.job ≡ job) × Hides failing t)))
LoopJudged targets failing hidden pass =
    NoTarget targets failing × (hidden ≡ none) × ((t : Row) → Memᴰ t targets → ¬ Hides failing t)

module _ (failing : List Row) (target : Row) (targets : List Row) where
  NoTarget-cons :
      contains failing target ≡ false
      → NoTarget targets failing
      → NoTarget (target ∷ targets) failing
  NoTarget-cons fresh h t (Memᴰ.head e) m =
      (not-contains_iff failing target).0 fresh (subst (λ r. Memᴰ r failing) e m)
  NoTarget-cons fresh h t (Memᴰ.tail n) m = h t n m

  NoneHidden-cons :
      may_hide failing target ≡ false
      → ((t : Row) → Memᴰ t targets → ¬ Hides failing t)
      → (t : Row) → Memᴰ t (target ∷ targets)
      → ¬ Hides failing t
  NoneHidden-cons open_target h t (Memᴰ.head e) hides =
      absurd (ground (arith, (may_hide_iff failing target).1 (subst (Hides failing) e hides)))
  NoneHidden-cons open_target h t (Memᴰ.tail n) hides = h t n hides

  -- A target that nothing hides, or that comes after a hidden one.
  step_same :
      (hidden : Option String)
      → contains failing target ≡ false
      → (hidden ≡ none → may_hide failing target ≡ false)
      → (j : Judgement) → LoopJudged targets failing hidden j
      → LoopJudged (target ∷ targets) failing hidden j
  step_same hidden fresh shown (fail t) h = (Memᴰ.tail h.0, h.1)
  step_same hidden fresh shown (inconclusive job) h = (
    NoTarget-cons fresh h.0,
    elim h.1 [ inl e ↦ inl e | inr (e, (t, n, p, hides)) ↦ inr (e, (t, Memᴰ.tail n, p, hides)) ],
  )
  step_same hidden fresh shown pass h =
      (NoTarget-cons fresh h.0, h.1, NoneHidden-cons (shown h.1) h.2)

  -- The first hidden target.
  step_hidden :
      contains failing target ≡ false
      → may_hide failing target ≡ true
      → (j : Judgement) → LoopJudged targets failing (some target.job) j
      → LoopJudged (target ∷ targets) failing none j
  step_hidden fresh hides (fail t) h = (Memᴰ.tail h.0, h.1)
  step_hidden fresh hides (inconclusive job) h = (
    NoTarget-cons fresh h.0,
    inr (refl, (target, Memᴰ.head refl, ground arith, (may_hide_iff failing target).0 hides)),
  )
  step_hidden fresh hides pass h = absurd (ground arith)

judge_loop-LoopJudged :
    (failing targets : List Row) (hidden : Option String)
    → LoopJudged targets failing hidden (judge_loop failing targets hidden)
unfolding judge_loop
judge_loop-LoopJudged failing [] none = ((λ t m. elim m [ ]), refl, (λ t m. elim m [ ]))
judge_loop-LoopJudged failing [] (some job) = ((λ t m. elim m [ ]), inl refl)
judge_loop-LoopJudged failing (target ∷ targets) hidden =
    elim (Bool-cases (contains failing target)) [
      | inl old ↦ rw (old, judge_loop) (Memᴰ.head refl, contains-Memᴰ failing old)
      | inr fresh ↦ elim (Bool-cases (hidden == none && may_hide failing target)) [
        | inl first_hidden ↦
            let e : hidden ≡ none = (option_beq_iff hidden none).0 (ground arith) in
            rw (fresh, judge_loop)
              (rw first_hidden (
                subst
                  (λ o.
                    LoopJudged (target ∷ targets) failing o
                      (judge_loop failing targets (some target.job)))
                  (sym e)
                  (step_hidden failing target targets fresh (ground arith) _
                    (judge_loop-LoopJudged failing targets (some target.job)))))
        | inr same ↦
            rw (fresh, judge_loop)
              (rw same (
                step_same failing target targets hidden fresh
                  (λ e. ground (arith, (option_beq_iff hidden none).1 e)) _
                  (judge_loop-LoopJudged failing targets hidden)))
      ]
    ]

-- `fail` names a target that is among the candidate's failing units. Otherwise no target is, and
-- `inconclusive` names the job of a target that a failing unit may hide: one of its own job and, for
-- a test, a row of the whole job. `pass` says that none is hidden either.
pub judge-Judged : (targets failing : List Row) → Judged targets failing (judge targets failing)
unfolding judge
judge-Judged targets failing = whole _ (judge_loop-LoopJudged failing (sort row_leb targets) none)
  where
    back : {t : Row} → Memᴰ t (sort row_leb targets) → Memᴰ t targets
    back {t} m = (Memᴰ-sort_iff row_leb t targets).0 m

    forth : {t : Row} → Memᴰ t targets → Memᴰ t (sort row_leb targets)
    forth {t} m = (Memᴰ-sort_iff row_leb t targets).1 m

    whole :
        (j : Judgement)
        → LoopJudged (sort row_leb targets) failing none j
        → Judged targets failing j
    whole (fail t) h = (back h.0, h.1)
    whole (inconclusive job) (h, inl e) = cc
    whole (inconclusive job) (h, inr (e, (t, m, p, hides))) =
        ((λ u n. h u (forth n)), (t, back m, p, hides))
    whole pass h = ((λ u n. h.0 u (forth n)), λ u n. h.2 u (forth n))
