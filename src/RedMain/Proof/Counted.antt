-- ===== src/RedMain/Proof/Counted.antt =====
-- What a list that `paged` gives is known to be.
use github.Base.{
  ℕ, zero, suc, ◌≤◌, ◌<◌, ◌≡◌, refl, ap, sym, ◌∙◌, inl, inr, String, true, Option, none, some, min,
}
use github.Base.{
  List, [], ◌∷◌, ◌++◌, map, arith, length, length-append, All, Bool-cases, eqb, ◌==◌, nat_eq,
}
use mathlib.Core.Option.{some-injective}
use mathlib.Core.List.{append-nil, append_assoc}
use mathlib.Core.Path.{subst}
use github.Json.{Value}
use github.RedMain.Proof.Pages.{
  Row, Gathered, and_then, page_path, read_page, go_on, paged_from, paged,
}
use github.RedMain.Proof.Checks.{id_of}
use github.RedMain.Proof.Proven.{bound}
use github.RedMain.Proof.Gathered.{
  Distinct, HasId, IsGathered, Agreed, Declares, Adds, read_page-Adds,
}

module _ (reader : String → Option Value) (path key : String) where
  -- Rows are those of pages from one on, each of which declares the total and holds 100 rows or all
  -- that are left.
  abbrev pub Pages : ℕ → ℕ → List Value → List Row → Type 0
  Pages total page [] rows = rows ≡ []
  Pages total page (body ∷ bodies) rows =
      (batch : List Row) × (rest : List Row) × (rows ≡ batch ++ rest)
      × (reader (page_path path page) ≡ some body)
      × Declares key body total batch
      × (length batch ≡ min 100 (length rows))
      × Pages total (suc page) bodies rest

  -- What the pages that are left add to the rows before.
  abbrev Counted : ℕ → ℕ → Option ℕ → List Row → List Row → Type 0
  Counted left page total before rows =
      (Distinct (map id_of rows) × All HasId rows)
      × Agreed total (length rows)
      × (bodies : List Value) × (more : List Row) × (rows ≡ before ++ more)
      × (0 < length bodies)
      × (length bodies ≤ left)
      × Pages (length rows) page bodies more

  Counted-cons :
      (left page : ℕ) (before : Gathered) (next : ℕ × Gathered) (body : Value) (bodies : List Value)
      (rows more : List Row)
      → reader (page_path path page) ≡ some body
      → Adds key body before next
      → next.0 ≡ length rows
      → rows ≡ next.1.0 ++ more
      → Pages (length rows) (suc page) bodies more
      → (all : List Row) × (rows ≡ before.0 ++ all) × Pages (length rows) page (body ∷ bodies) all
  Counted-cons left page before next body bodies rows more f (batch, declares, e, full) same g p =
      let split : rows ≡ before.0 ++ (batch ++ more) =
        g ∙ ap (λ l. l ++ more) e ∙ append_assoc (before.0) batch more in
      let sized : length rows ≡ length (before.0 ++ (batch ++ more)) = ap length split in
      (
        batch ++ more,
        split,
        (
          batch,
          more,
          refl,
          f,
          subst (λ n. Declares key body n batch) same declares,
          omega (arith, length-append (before.0) (batch ++ more)),
          p,
        ),
      )

  go_on-Counted :
      (left page : ℕ) (total : Option ℕ) (before : Gathered) (next : ℕ × Gathered) (body : Value)
      (rows : List Row)
      → reader (page_path path page) ≡ some body
      → Adds key body before next
      → IsGathered next.1
      → Agreed total next.0
      → (IsGathered next.1
          → paged_from reader path key left (suc page) (some next.0) next.1 ≡ some rows
          → Counted left (suc page) (some next.0) next.1.0 rows)
      → go_on (paged_from reader path key left (suc page)) next ≡ some rows
      → Counted (suc left) page total before.0 rows
  go_on-Counted left page total before next body rows f adds h a rest e =
      elim (Bool-cases (length next.1.0 == next.0)) [
        | inl done ↦
            let same : next.1.0 ≡ rows = some-injective _ _ (rw done at e) in
            let count : next.0 ≡ length rows = omega (arith, ap length same, eqb_eq done) in
            let (more, g, pages) =
              Counted-cons left page before next body [] rows [] f adds count
                (sym same ∙ sym (append-nil _)) refl in
            (
              (
                subst (λ l. Distinct (map id_of l)) same (subst Distinct (sym h.0) h.1),
                subst (All HasId) same h.2,
              ),
              subst (Agreed total) count a,
              body ∷ [],
              more,
              g,
              omega arith,
              omega arith,
              pages,
            )
        | inr unfinished ↦
            let (good, same, bodies, k, g, p, q, pages) = rest h (rw unfinished at e) in
            let (more, l, all) =
              Counted-cons left page before next body bodies rows k f adds same g pages in
            (
              good,
              subst (Agreed total) same a,
              body ∷ bodies,
              more,
              l,
              omega arith,
              omega arith,
              all,
            )
      ]
    where
      eqb_eq : {m n : ℕ} → eqb m n ≡ true → m ≡ n
      eqb_eq h = ground arith

  paged_from-Counted :
      (left page : ℕ) (total : Option ℕ) (gathered : Gathered) (rows : List Row)
      → IsGathered gathered
      → paged_from reader path key left page total gathered ≡ some rows
      → Counted left page total gathered.0 rows
  unfolding paged_from
  paged_from-Counted zero page total gathered rows h e = cc
  paged_from-Counted (suc left) page total gathered rows h e =
      let rest = paged_from reader path key left (suc page) in
      let (body, f, g) =
        bound (reader (page_path path page))
          (λ b. and_then (read_page key total gathered b) (go_on rest)) rows e in
      let (next, k, l) = bound (read_page key total gathered body) (go_on rest) rows g in
      let (adds, inner, agrees) = read_page-Adds key total gathered body next h k in
      go_on-Counted left page total gathered next body rows f adds inner agrees
        (λ i m. paged_from-Counted left (suc page) (some next.0) next.1 rows i m) l

  -- All different, and those of the pages, each of which declares their number.
  abbrev pub IsComplete : ℕ → List Row → Type 0
  IsComplete limit rows =
      (Distinct (map id_of rows) × All HasId rows)
      × (bodies : List Value) × (0 < length bodies)
      × (length bodies ≤ limit)
      × Pages (length rows) 1 bodies rows

  -- Rows that are given are complete: their identities are positive and all different, and they are
  -- exactly the rows of one or more pages, at most `limit`, read from the first on, in order. Each of
  -- these pages declares as many rows in total as are given, and holds 100 rows or all that are left.
  pub paged-IsComplete :
      (limit : ℕ) (rows : List Row)
      → paged reader path key limit ≡ some rows
      → IsComplete limit rows
  unfolding paged
  paged-IsComplete limit rows e =
      let (good, agrees, bodies, more, f, p, q, pages) =
        paged_from-Counted limit 1 none ([], []) rows (refl, tt, tt) e in
      (good, bodies, p, q, subst (Pages (length rows) 1 bodies) (sym f) pages)
