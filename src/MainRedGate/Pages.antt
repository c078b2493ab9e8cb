-- ===== src/MainRedGate/Pages.antt =====
-- `read_runs` over the pages of the workflow's history.
use github.Base.{ℕ, zero, suc, ◌+◌, ◌≤◌, ◌≡◌, refl, ap, sym, ◌∙◌, inl, inr, String, true, false}
use github.Base.{List, [], ◌∷◌, ◌++◌, map, arith, length, Bool-cases, ltb}
use mathlib.Core.List.{append-nil}
use github.Base.Dict.{lookup}
use github.Base.Pieces.{concat}
use github.MainRedGate.Trunk.{PushRun, trunk_from, trunk_state}
use github.MainRedGate.Outcome.{Outcome, returned}
use github.MainRedGate.History.{
  Api, page_limit, Ancestry, is_conclusive, Selected, is_unknown, read_pages, read_runs,
}
use github.MainRedGate.Reference.{Paged, Readable, verdicts, Remembers}
use github.MainRedGate.Gathered.{up_to, gate_runs-Gathered}
use github.MainRedGate.States.{
  trunk_from-up_to, unknown_page, decided_page, verdicts-append, verdicts-AllPush,
}

module _ (api : Api) (branch base check : String) where
  abbrev verdicts_of : List PushRun → List PushRun
  verdicts_of = verdicts api branch base check

  -- Runs whose state, from any place, is that of all the verdicts.
  abbrev pub Decides : List PushRun → List PushRun → Type 0
  Decides selected history =
      (i : ℕ) → trunk_from i selected branch ≡ trunk_from i (verdicts_of history) branch

  abbrev Reads : List PushRun → Outcome Selected → Type 0
  Reads history o =
      (selected : List PushRun) × (after : Ancestry) × (o ≡ returned (selected, after))
      × Decides selected history

  read_pages-Decides :
      Readable api branch base check
      → (left : ℕ) (pages : List (List PushRun)) (ancestry : Ancestry)
      → Remembers api branch base check ancestry
      → Paged pages
      → length pages ≤ left
      → Reads (concat pages) (read_pages api branch base check left (map returned pages) ancestry)
  unfolding read_pages trunk_state
  read_pages-Decides readable left [] ancestry r h n = absurd h
  read_pages-Decides readable zero (page ∷ pages) ancestry r h n = absurd (omega arith)
  read_pages-Decides readable (suc left) (page ∷ pages) ancestry r h n =
      let (after, e, r') = gate_runs-Gathered api branch base check readable page ancestry r in
      let all_push = verdicts-AllPush api branch base check page in
      let here : List PushRun = up_to is_conclusive (verdicts_of page) in
      let cut : (i : ℕ) → trunk_from i here branch ≡ trunk_from i (verdicts_of page) branch =
        λ i. trunk_from-up_to i (verdicts_of page) branch all_push in
      let joined = verdicts-append api branch base check page (concat pages) in
      elim (Bool-cases (is_unknown (trunk_from 0 here branch))) [
        | inr decided ↦ (
          here,
          after,
          rw (e, decided) refl,
          λ i.
              cut i
              ∙ sym (
                  decided_page 0 (verdicts_of page) branch all_push (rw (cut 0) at decided) i
                    (verdicts_of (concat pages)))
              ∙ ap (λ l. trunk_from i l branch) (sym joined),
        )
        | inl unknown_here ↦ elim h [
          | inl (short, last) ↦
              let small : ltb (length page) 100 ≡ true = ground arith in
              (
                here,
                after,
                rw (e, unknown_here, small) refl,
                λ i.
                    cut i
                    ∙ ap (λ l. trunk_from i (verdicts_of l) branch)
                        (sym (append-nil page) ∙ ap (λ l. page ++ concat l) (sym last)),
              )
          | inr (full, rest) ↦
              let large : ltb (length page) 100 ≡ false = ground arith in
              let (selected, kept, f, decides) =
                read_pages-Decides readable left pages after r' rest (omega arith) in
              let (same, skip) =
                unknown_page 0 (verdicts_of page) branch all_push (rw (cut 0) at unknown_here) in
              (
                here ++ selected,
                kept,
                rw (e, unknown_here, large, f) refl,
                λ i.
                    ap (λ l. trunk_from i (l ++ selected) branch) same
                    ∙ skip i selected
                    ∙ decides (i + length (verdicts_of page))
                    ∙ sym (skip i (verdicts_of (concat pages)))
                    ∙ ap (λ l. trunk_from i l branch) (sym joined),
              )
        ]
      ]

  Remembers-nothing : Remembers api branch base check []
  unfolding lookup
  Remembers-nothing sha known e = cc

  -- Where the API serves a history of at most ten pages of 100, the comparisons and the verdicts of
  -- the runs, read_runs returns runs whose trunk state, deciding run and its place included, is that
  -- of the verdicts of all the push runs on the trunk at the base or an ancestor of it.
  pub read_runs-trunk :
      Readable api branch base check
      → (pages : List (List PushRun)) → api.history ≡ map returned pages
      → Paged pages
      → length pages ≤ page_limit
      → (selected : List PushRun) × (after : Ancestry) × (read_runs api branch base check []
          ≡ returned (selected, after))
        × (trunk_state selected branch ≡ trunk_state (verdicts_of (concat pages)) branch)
  unfolding read_runs trunk_state
  read_runs-trunk readable pages served h n =
      let (selected, after, e, decides) =
        read_pages-Decides readable page_limit pages [] Remembers-nothing h n in
      (
        selected,
        after,
        ap (λ l. read_pages api branch base check page_limit l []) served ∙ e,
        decides 0,
      )
