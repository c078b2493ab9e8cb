-- ===== src/NeedsPass/Tests.antt =====
-- Runs of the verdict of needs_pass.py, and its theorem at concrete data.
use github.Base.{library, ◌≡◌, refl, ◌↔◌, true, [], ◌∷◌, map, All, contains, string_eq}
use github.NeedsPass.{text, absent, Needs, names, required_for, verdict}
use github.NeedsPass.Verdict.{Acceptable, verdict-empty_iff}

abbrev lanes : Needs
lanes =
    ("test", text "success")
    ∷ ("docs", text "skipped")
    ∷ ("bench", text "failure")
    ∷ ("build", text "cancelled")
    ∷ []

names_test : names " test, build ,,test" ≡ "build" ∷ "test" ∷ []
unfolding names library
names_test = refl

verdict_test :
    verdict lanes ("test" ∷ "lint" ∷ []) ("bench" ∷ []) "push" ("docs" ∷ [])
    ≡ "lint: required but not in needs" ∷ "build: CANCELLED (stopped run)"
      ∷ "docs: skipped (must succeed)" ∷ []
unfolding verdict library
verdict_test = refl

merge_group_test :
    verdict (("docs", text "skipped") ∷ ("test", absent) ∷ []) [] [] "merge_group" ("docs" ∷ [])
    ≡ "test: no result" ∷ []
unfolding verdict library
merge_group_test = refl

verdict-empty_iff_example : (verdict lanes ("test" ∷ []) ("bench" ∷ []) "push" [] ≡ []) ↔ (
    All
      (λ job. contains (map (λ entry. entry.0) lanes) job ≡ true)
      (required_for ("test" ∷ []) [] "push")
    × All (Acceptable (required_for ("test" ∷ []) [] "push") ("bench" ∷ [])) lanes)
verdict-empty_iff_example = verdict-empty_iff lanes ("test" ∷ []) ("bench" ∷ []) "push" []
