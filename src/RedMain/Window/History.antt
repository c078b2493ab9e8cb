-- ===== src/RedMain/Window/History.antt =====
-- The earlier runs that window.py walks: which of them, and in what order.
use mathlib.Core.List.{Memᴰ}
use mathlib.Core.Path.{subst}
use mathlib.Core.Option.{some-injective}
use github.Base.{
  ℕ, ◌≤◌, ◌<◌, String, ◌≡◌, refl, sym, ap, ◌∙◌, ◌↔◌, ◌⊎◌, inl, inr, Bool, true, false, Option, none,
  some,
}
use github.Base.{List, [], ◌∷◌, map, arith, All, All-of, Bool-cases, ltb, ◌&&◌}
use github.Base.{Memᴰ-map, Memᴰ-of_map}
use github.Base.Sorting.{sort, Memᴰ-sort_iff, IsSorted, sort-IsSorted}
use github.RedMain.Window.{
  Run, Moment, timestamp, is_settled, candidates, newer_first, earlier_runs,
}
use github.RedMain.Window.{add_run, sorted_runs, since}

-- All pairs in order.
abbrev pub Ordered {ℓ} : {A : Type ℓ} → (A → A → Type 0) → List A → Type 0
Ordered R [] = Unit
Ordered R (x ∷ xs) = All (R x) xs × Ordered R xs

module _ (fromisoformat : String → Option Moment) (is_eligible : Run → Bool) where
  abbrev time : Run → Option ℕ
  time run = timestamp fromisoformat run.created_at

  abbrev found : ℕ → List Run → Option (List (ℕ × Run))
  found before rows = candidates fromisoformat is_eligible before rows

  -- A settled, eligible run that was created before.
  abbrev pub Earlier : ℕ → ℕ × Run → Type 0
  Earlier before (t, run) =
      (is_settled fromisoformat is_eligible run ≡ true)
      × (time run ≡ some t)
      × (t < before)
      × (is_eligible run ≡ true)

  -- The rest of the comprehension behind a row, and what the row adds to it.
  abbrev Added : ℕ → Run → List (ℕ × Run) → List (ℕ × Run) → Type 0
  Added before run rest out =
      ((out ≡ rest) × ((t : ℕ) → ¬ Earlier before (t, run)))
      ⊎ ((t : ℕ) × (out ≡ (t, run) ∷ rest) × Earlier before (t, run))

  not-Earlier :
      {before t : ℕ} {run : Run} (u : ℕ)
      → Earlier before (u, run)
      → (ltb t before && is_eligible run) ≡ false
      → time run ≡ some t
      → ⊥
  not-Earlier {before} {t} {run} u k neither e =
      let same : u ≡ t = some-injective _ _ (sym k.1 ∙ e) in absurd (ground arith)

  settled_test :
      (before : ℕ) (run : Run) (rest : Option (List (ℕ × Run))) (out : List (ℕ × Run))
      → is_settled fromisoformat is_eligible run ≡ true
      → (o : Option ℕ) → time run ≡ o
      → add_run fromisoformat is_eligible before run o rest ≡ some out
      → (l : List (ℕ × Run)) × (rest ≡ some l) × Added before run l out
  unfolding add_run
  settled_test before run rest out h none e q = cc
  settled_test before run none out h (some t) e q = cc
  settled_test before run (some l) out h (some t) e q =
      elim (Bool-cases (ltb t before && is_eligible run)) [
        | inl both ↦ (
          l,
          refl,
          inr (t, sym (some-injective _ _ (rw both at q)), (h, e, ground arith, ground arith)),
        )
        | inr neither ↦ (
          l,
          refl,
          inl (sym (some-injective _ _ (rw neither at q)), λ u k. not-Earlier u k neither e),
        )
      ]

  -- What one round of the comprehension adds.
  candidates-Added :
      (before : ℕ) (run : Run) (rows : List Run) (out : List (ℕ × Run))
      → found before (run ∷ rows) ≡ some out
      → (l : List (ℕ × Run)) × (found before rows ≡ some l) × Added before run l out
  unfolding candidates
  candidates-Added before run rows out q =
      elim (Bool-cases (is_settled fromisoformat is_eligible run)) [
        | inl h ↦
            settled_test before run (found before rows) out h (time run) refl
              (rw (h, candidates) at q)
        | inr h ↦ (out, rw (h, candidates) at q, inl (refl, λ t k. absurd (ground arith)))
      ]

  module _ (before : ℕ) (run : Run) (rows : List Run) (row : ℕ × Run) (l : List (ℕ × Run))
      (ih : Memᴰ row l ↔ (Memᴰ row.1 rows × Earlier before row)) where
    skipped :
        ((t : ℕ) → ¬ Earlier before (t, run))
        → Memᴰ row.1 (run ∷ rows)
        → Earlier before row
        → Memᴰ row l
    skipped not_it (Memᴰ.head p) k =
        absurd (not_it row.0 (subst (λ r. Earlier before (row.0, r)) p k))
    skipped not_it (Memᴰ.tail n) k = ih.1 (n, k)

    same_row : {u : ℕ} → Earlier before (u, run) → row.1 ≡ run → Earlier before row → row ≡ (u, run)
    same_row {u} earlier p k =
        let same : row.0 ≡ u = some-injective _ _ (sym k.1 ∙ ap time p ∙ earlier.1) in
        λ i. (same i, p i)

    added_from :
        {u : ℕ}
        → Earlier before (u, run)
        → Memᴰ row ((u, run) ∷ l)
        → Memᴰ row.1 (run ∷ rows) × Earlier before row
    added_from earlier (Memᴰ.head p) =
        (Memᴰ.head (ap (λ (x : ℕ × Run). x.1) p), subst (Earlier before) (sym p) earlier)
    added_from earlier (Memᴰ.tail n) = let (m, k) = ih.0 n in (Memᴰ.tail m, k)

    added_to :
        {u : ℕ}
        → Earlier before (u, run)
        → Memᴰ row.1 (run ∷ rows)
        → Earlier before row
        → Memᴰ row ((u, run) ∷ l)
    added_to earlier (Memᴰ.head p) k = Memᴰ.head (same_row earlier p k)
    added_to earlier (Memᴰ.tail n) k = Memᴰ.tail (ih.1 (n, k))

    Added-Memᴰ :
        (out : List (ℕ × Run))
        → Added before run l out
        → Memᴰ row out ↔ (Memᴰ row.1 (run ∷ rows) × Earlier before row)
    Added-Memᴰ out (inl (e, not_it)) = (
      λ m. let (n, k) = ih.0 (subst (Memᴰ row) e m) in (Memᴰ.tail n, k),
      λ h. subst (Memᴰ row) (sym e) (skipped not_it h.0 h.1),
    )
    Added-Memᴰ out (inr (u, e, earlier)) = (
      λ m. added_from earlier (subst (Memᴰ row) e m),
      λ h. subst (Memᴰ row) (sym e) (added_to earlier h.0 h.1),
    )

  candidates-Memᴰ :
      (before : ℕ) (rows : List Run) (out : List (ℕ × Run)) (row : ℕ × Run)
      → found before rows ≡ some out
      → Memᴰ row out ↔ (Memᴰ row.1 rows × Earlier before row)
  unfolding candidates
  candidates-Memᴰ before [] out row q =
      (λ m. elim (subst (Memᴰ row) (sym (some-injective _ _ q)) m) [ ], λ h. elim (h.0) [ ])
  candidates-Memᴰ before (run ∷ rows) out row q =
      let (l, e, added) = candidates-Added before run rows out q in
      Added-Memᴰ before run rows row l (candidates-Memᴰ before rows l row e) out added

  -- The first run is the newer: by its time, then by its id.
  abbrev pub NewerFirst : Run → Run → Type 0
  NewerFirst r s =
      (t u : ℕ) → time r ≡ some t → time s ≡ some u → (u < t) ⊎ ((u ≡ t) × (s.id ≤ r.id))

  newer_first_total :
      (a b : ℕ × Run)
      → newer_first fromisoformat is_eligible a b ≡ false
      → newer_first fromisoformat is_eligible b a ≡ true
  newer_first_total (t, r) (u, s) h = ground arith

  newer_first_trans :
      (a b c : ℕ × Run)
      → newer_first fromisoformat is_eligible a b ≡ true
      → newer_first fromisoformat is_eligible b c ≡ true
      → newer_first fromisoformat is_eligible a c ≡ true
  newer_first_trans (t, r) (u, s) (v, w) h k = ground arith

  abbrev Timed : ℕ × Run → Type 0
  Timed row = time row.1 ≡ some row.0

  NewerFirst-of_test :
      (a b : ℕ × Run)
      → Timed a
      → Timed b
      → newer_first fromisoformat is_eligible a b ≡ true
      → NewerFirst a.1 b.1
  NewerFirst-of_test (t, r) (u, s) p q h t' u' p' q' =
      let e : t ≡ t' = some-injective _ _ (sym p ∙ p') in
      let f : u ≡ u' = some-injective _ _ (sym q ∙ q') in ground arith

  All-NewerFirst :
      (a : ℕ × Run) (l : List (ℕ × Run))
      → Timed a
      → All Timed l
      → All (λ b. newer_first fromisoformat is_eligible a b ≡ true) l
      → All (NewerFirst a.1) (map (λ row. row.1) l)
  All-NewerFirst a [] p ts h = tt
  All-NewerFirst a (b ∷ l) p ts h =
      (NewerFirst-of_test a b p ts.0 h.0, All-NewerFirst a l p ts.1 h.1)

  Ordered-map :
      (l : List (ℕ × Run))
      → All Timed l
      → IsSorted (newer_first fromisoformat is_eligible) l
      → Ordered NewerFirst (map (λ row. row.1) l)
  Ordered-map [] ts s = tt
  Ordered-map (a ∷ l) ts s = (All-NewerFirst a l ts.0 ts.1 s.0, Ordered-map l ts.1 s.1)

  -- What `earlier_runs` returns for a time `before`.
  abbrev pub History : ℕ → List Run → List Run → Type 0
  History before rows out =
      Ordered NewerFirst out
      × ((run : Run) → Memᴰ run out ↔ (Memᴰ run rows × ((t : ℕ) × Earlier before (t, run))))

  sorted-History :
      (before : ℕ) (rows : List Run) (l : List (ℕ × Run))
      → found before rows ≡ some l
      → History before rows (map (λ row. row.1) (sort (newer_first fromisoformat is_eligible) l))
  sorted-History before rows l e = (
    Ordered-map (sort newer l) (All-of Timed (sort newer l) (λ row m. (row_of m).1.1))
        (sort-IsSorted newer newer_first_total newer_first_trans l),
    λ run. (
      λ m.
          let (row, n, p) = Memᴰ-of_map (λ row. row.1) (sort newer l) m in
          let (k, earlier) = row_of n in
          (
            subst (λ r. Memᴰ r rows) (sym p) k,
            (row.0, subst (λ r. Earlier before (row.0, r)) (sym p) earlier),
          ),
      λ (m, (t, earlier)).
          Memᴰ-map (λ row. row.1)
            ((Memᴰ-sort_iff newer (t, run) l).1
              ((candidates-Memᴰ before rows l (t, run) e).1 (m, earlier))),
    ),
  )
    where
      newer : ℕ × Run → ℕ × Run → Bool
      newer = newer_first fromisoformat is_eligible

      row_of : {row : ℕ × Run} → Memᴰ row (sort newer l) → Memᴰ row.1 rows × Earlier before row
      row_of {row} m = (candidates-Memᴰ before rows l row e).0 ((Memᴰ-sort_iff newer row l).0 m)

  -- Where nothing is raised, the runs are exactly the settled and eligible ones that were created
  -- before, each pair of them newest first (by time, then by id).
  pub earlier_runs-History :
      (rows out : List Run) (created : Option String)
      → earlier_runs fromisoformat is_eligible rows created ≡ some out
      → (before : ℕ) × (timestamp fromisoformat created ≡ some before) × History before rows out
  unfolding earlier_runs
  earlier_runs-History rows out created e = go (timestamp fromisoformat created) refl e
    where
      inner :
          (before : ℕ) (o : Option (List (ℕ × Run)))
          → found before rows ≡ o
          → sorted_runs fromisoformat is_eligible o ≡ some out
          → History before rows out
      inner before none p q = cc
      inner before (some l) p q =
          subst (History before rows) (some-injective _ _ q) (sorted-History before rows l p)

      go :
          (o : Option ℕ)
          → timestamp fromisoformat created ≡ o
          → since fromisoformat is_eligible o rows ≡ some out
          → (before : ℕ) × (timestamp fromisoformat created ≡ some before) × History before rows out
      go none p q = cc
      go (some before) p q = (before, p, inner before (found before rows) refl q)
