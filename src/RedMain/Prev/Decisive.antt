-- ===== src/RedMain/Prev/Decisive.antt =====
-- The run that prev.py prints.
use mathlib.Core.Option.{some-injective}
use mathlib.Core.Path.{subst}
use github.Base.{ℕ, String, ◌≡◌, ◌⊎◌, refl, ap, inl, inr, true, false, Option, none, some}
use github.Base.{List, [], ◌∷◌, ◌++◌, All, Bool-cases}
use github.RedMain.Prev.Earlier.{Lists, EarlierRuns, predecessors-EarlierRuns}
use github.Json.{Value, str, get, is_text}
use github.RedMain.Proof.Pages.{Row}
use github.RedMain.Proof.Proven.{bound}
use github.RedMain.Proof.Failed.{is_among}
use github.RedMain.Window.{Moment}
use github.RedMain.Prev.{
  Context, Answer, predecessors, timestamp, by_verdict, by_context, verdict_in, decide, main,
}

module _ (fromisoformat : String → Option Moment) (api : String → Option Value)
    (context : Option Context) where
  abbrev verdict_read : Context → Row → Option Value
  verdict_read c row = verdict_in fromisoformat api context c row

  -- A run that says nothing: it is cancelled, and there is no context to read it by, or its verdict
  -- is that it was cancelled or is no run of the trunk.
  abbrev pub IsPassed : Row → Type 0
  IsPassed row =
      (is_text "cancelled" (get row "conclusion") ≡ true)
      × ((context ≡ none)
          ⊎ ((c : Context) × (context ≡ some c)
              × (v : Value) × (verdict_read c row ≡ some v)
              × (is_among ("cancelled" ∷ "ineligible" ∷ []) v ≡ true)))

  -- A run that decides: by its conclusion, or, where it is cancelled, by its verdict.
  abbrev pub Decides : Answer → Type 0
  Decides a =
      ((is_text "cancelled" (get a.run "conclusion") ≡ false)
        × (a.conclusion ≡ get a.run "conclusion"))
      ⊎ ((is_text "cancelled" (get a.run "conclusion") ≡ true)
          × (c : Context) × (context ≡ some c)
          × (verdict_read c a.run ≡ some a.conclusion)
          × (is_among ("success" ∷ "failure" ∷ "timed_out" ∷ []) a.conclusion ≡ true))

  abbrev pub FirstDecisive : List Row → Option Answer → Type 0
  FirstDecisive runs none = All IsPassed runs
  FirstDecisive runs (some a) =
      (before : List Row) × (after : List Row) × (runs ≡ before ++ a.run ∷ after)
      × All IsPassed before
      × Decides a

  FirstDecisive-cons :
      (row : Row) (rows : List Row) (result : Option Answer)
      → IsPassed row
      → FirstDecisive rows result
      → FirstDecisive (row ∷ rows) result
  FirstDecisive-cons row rows none h all = (h, all)
  FirstDecisive-cons row rows (some a) h (before, after, e, all, d) =
      (row ∷ before, after, ap (λ l. row ∷ l) e, (h, all), d)

  decide-FirstDecisive :
      (rows : List Row) (result : Option Answer)
      → decide fromisoformat api context rows ≡ some result
      → FirstDecisive rows result
  unfolding decide
  decide-FirstDecisive [] result e = subst (FirstDecisive []) (some-injective _ _ e) tt
  decide-FirstDecisive (row ∷ rows) result e =
      elim (Bool-cases (is_text "cancelled" (get row "conclusion"))) [
        | inr other ↦
            subst (FirstDecisive (row ∷ rows)) (some-injective _ _ (rw other at e))
              ([], rows, refl, tt, inl (other, refl))
        | inl cancelled ↦
            by_c context refl cancelled (λ f. decide-FirstDecisive rows result f)
              (rw cancelled at e)
      ]
    where
      by_v :
          (c : Context) (v : Value)
          → context ≡ some c
          → verdict_read c row ≡ some v
          → is_text "cancelled" (get row "conclusion") ≡ true
          → (decide fromisoformat api context rows ≡ some result → FirstDecisive rows result)
          → by_verdict fromisoformat api context row v (decide fromisoformat api context rows)
            ≡ some result
          → FirstDecisive (row ∷ rows) result
      by_v c v same read cancelled rest f =
          elim (Bool-cases (is_among ("cancelled" ∷ "ineligible" ∷ []) v)) [
            | inl passed ↦
                FirstDecisive-cons row rows result (cancelled, inr (c, same, v, read, passed))
                  (rest (rw passed at f))
            | inr stays ↦
                elim (Bool-cases (is_among ("success" ∷ "failure" ∷ "timed_out" ∷ []) v)) [
                  | inl decisive ↦
                      subst (FirstDecisive (row ∷ rows))
                        (some-injective _ _ (rw (stays, decisive) at f))
                        ([], rows, refl, tt, inr (cancelled, c, same, read, decisive))
                  | inr unclear ↦ absurd (nothing (rw (stays, unclear) at f))
                ]
          ]
        where
          nothing : ◌≡◌ {A = Option (Option Answer)} none (some result) → ⊥
          nothing g = cc

      by_c :
          (o : Option Context)
          → context ≡ o
          → is_text "cancelled" (get row "conclusion") ≡ true
          → (decide fromisoformat api context rows ≡ some result → FirstDecisive rows result)
          → by_context fromisoformat api context o row (decide fromisoformat api context rows)
            ≡ some result
          → FirstDecisive (row ∷ rows) result
      by_c none same cancelled rest f =
          FirstDecisive-cons row rows result (cancelled, inl same) (rest f)
      by_c (some c) same cancelled rest f =
          let (v, read, g) = bound (verdict_read c row) _ _ f in by_v c v same read cancelled rest g

  -- Where nothing raises, the body lists all its rows, and the run that is printed is the first that
  -- decides of those among them that are completed, have a settled conclusion and were created
  -- before, newest first: every one ahead of it is cancelled and says nothing. It decides by its own
  -- conclusion, or, where it is cancelled, by its authenticated verdict, a success or a failure.
  -- Nothing is printed where none decides.
  pub main-FirstDecisive :
      (created : String) (body : Value) (result : Option Answer)
      → main fromisoformat api context created body ≡ some result
      → (before : ℕ) × (rows : List Value) × (runs : List Row) × (timestamp fromisoformat
            (str created)
          ≡ some before)
        × Lists body rows
        × EarlierRuns fromisoformat before rows runs
        × FirstDecisive runs result
  unfolding main
  main-FirstDecisive created body result e =
      let (runs, f, g) = bound (predecessors fromisoformat created body) _ _ e in
      let (before, rows, timed, listed, early) =
        predecessors-EarlierRuns fromisoformat created body runs f in
      (before, rows, runs, timed, listed, early, decide-FirstDecisive runs result g)
