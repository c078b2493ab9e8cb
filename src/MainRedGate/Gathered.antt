-- ===== src/MainRedGate/Gathered.antt =====
-- The gate reads no further than the newest conclusive verdict, and decides as with all of them.
use github.Base.{◌≡◌, refl, inl, inr, String, Bool, true}
use github.Base.{List, [], ◌∷◌, Bool-cases, string_eq, option_eq, if◌then◌else◌}
use github.MainRedGate.Trunk.{PushRun}
use github.MainRedGate.Outcome.{Outcome, returned}
use github.MainRedGate.History.{Api, Ancestry, is_conclusive, Selected, select_run, gate_runs}
use github.MainRedGate.Reference.{
  Readable, counts, seen_as, verdicts, Remembers, is_judged-Known, projected-seen,
}

-- The items up to the first that passes the test, with it.
unfoldable pub up_to : {A : Type 0} → (A → Bool) → List A → List A
up_to test [] = []
up_to test (x ∷ xs) = let rest = up_to test xs in if test x then x ∷ [] else x ∷ rest

module _ (api : Api) (branch base check : String) where
  abbrev pub Gathered : List PushRun → Outcome Selected → Type 0
  Gathered selected o =
      (after : Ancestry) × (o ≡ returned (selected, after)) × Remembers api branch base check after

  select_run-Gathered :
      Readable api branch base check
      → (run : PushRun) (rest : Ancestry → Outcome Selected) (ancestry : Ancestry)
        (after : List PushRun)
      → Gathered after (rest ancestry)
      → Remembers api branch base check ancestry
      → Gathered
          (if is_conclusive (seen_as api branch base check run)
            then seen_as api branch base check run ∷ []
            else seen_as api branch base check run ∷ after)
          (select_run api check run rest (true, ancestry))
  unfolding select_run
  select_run-Gathered readable run rest ancestry after (kept, e, r) before =
      let seen = projected-seen api branch base check readable run in
      elim (Bool-cases (is_conclusive (seen_as api branch base check run))) [
        | inl f ↦ (ancestry, rw (seen, f) refl, before)
        | inr f ↦ (kept, rw (seen, f, e) refl, r)
      ]

  pub gate_runs-Gathered :
      Readable api branch base check
      → (runs : List PushRun) (ancestry : Ancestry) → Remembers api branch base check ancestry
      → Gathered
          (up_to is_conclusive (verdicts api branch base check runs))
          (gate_runs api branch base check runs ancestry)
  unfolding gate_runs up_to select_run
  gate_runs-Gathered readable [] ancestry r = (ancestry, refl, r)
  gate_runs-Gathered readable (run ∷ runs) ancestry r =
      let (next, e, r') = is_judged-Known api branch base check readable ancestry run r in
      let rest = gate_runs-Gathered readable runs next r' in
      elim (Bool-cases (counts api branch base check run)) [
        | inr f ↦ rw (e, f) rest
        | inl f ↦
            rw (e, f)
              (select_run-Gathered readable run (gate_runs api branch base check runs) next _ rest
                r')
      ]
