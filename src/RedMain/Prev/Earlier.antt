-- ===== src/RedMain/Prev/Earlier.antt =====
-- The runs that prev.py walks: which of them, and in what order.
use mathlib.Core.List.{Memᴰ}
use mathlib.Core.Option.{some-injective}
use mathlib.Core.Path.{subst}
use github.Base.{
  ℕ, ◌≤◌, ◌<◌, String, ◌≡◌, ◌↔◌, ◌⊎◌, refl, sym, ap, ◌∙◌, inl, inr, Bool, true, Option, none, some,
}
use github.Base.{
  List, [], ◌∷◌, map, length, leb, arith, All, All-of, Bool-cases, Memᴰ-map, Memᴰ-of_map, ◌==◌,
  nat_eq,
}
use github.Base.Sorting.{sort, Memᴰ-sort_iff, IsSorted, sort-IsSorted}
use github.Json.{Value, Fields, get, obj, str, count_of, list_of}
use github.RedMain.Proof.Pages.{Row}
use github.RedMain.Proof.Proven.{bound}
use github.RedMain.Proof.Failed.{is_among}
use github.RedMain.Window.{Moment, settled}
use github.RedMain.Window.History.{Ordered}
use github.RedMain.Prev.{
  history, is_completed, is_known, has_outcome, is_candidate, add_candidate, timestamp, read_rows,
  predecessors,
}

-- A body that lists all its rows.
abbrev pub Lists : Value → List Value → Type 0
Lists body rows =
    (fields : Fields) × (body ≡ obj fields)
    × (list_of (get fields "workflow_runs") ≡ some rows)
    × (count_of (get fields "total_count") ≡ some (length rows))

history-Lists : (body : Value) (rows : List Value) → history body ≡ some rows → Lists body rows
history-Lists (obj fields) rows e =
    let (listed, f, g) = bound (list_of (get fields "workflow_runs")) _ _ e in
    let (count, h, k) = bound (count_of (get fields "total_count")) _ _ g in
    elim (Bool-cases (count == length listed)) [
      | inr wrong ↦ absurd (nothing (rw wrong at k))
      | inl right ↦
          let same : listed ≡ rows = some-injective _ _ (rw right at k) in
          let all : count ≡ length listed = ground arith in
          (fields, refl, f ∙ ap some same, h ∙ ap some (all ∙ ap length same))
    ]
  where
    nothing : ◌≡◌ {A = Option (List Value)} none (some rows) → ⊥
    nothing g = cc
history-Lists (Value.null) rows e = cc
history-Lists (Value.bool b) rows e = cc
history-Lists (Value.int n) rows e = cc
history-Lists (Value.real n s) rows e = cc
history-Lists (Value.str s) rows e = cc
history-Lists (Value.arr vs) rows e = cc

Memᴰ-add_candidate :
    (created at : ℕ) (row : Row) (more : List (ℕ × Row)) (entry : ℕ × Row)
    → Memᴰ entry (add_candidate created at row more)
      ↔ (((entry ≡ (at, row)) × (is_candidate created at row ≡ true)) ⊎ Memᴰ entry more)
Memᴰ-add_candidate created at row more entry = elim (Bool-cases (is_candidate created at row)) [
  | inl added ↦
      rw added (λ m. by_place m, λ h. elim h [ inl (e, f) ↦ Memᴰ.head e | inr m ↦ Memᴰ.tail m ])
  | inr left ↦ rw left (λ m. inr m, λ h. elim h [ inl (e, f) ↦ absurd (ground arith) | inr m ↦ m ])
]
  where
    by_place :
        Memᴰ entry ((at, row) ∷ more) → ((entry ≡ (at, row)) × (true ≡ true)) ⊎ Memᴰ entry more
    by_place (Memᴰ.head e) = inl (e, refl)
    by_place (Memᴰ.tail m) = inr m

module _ (fromisoformat : String → Option Moment) where
  abbrev time : Row → Option ℕ
  time row = timestamp fromisoformat (get row "created_at")

  -- A completed run with a settled conclusion that was created before.
  abbrev pub Earlier : ℕ → ℕ × Row → Type 0
  Earlier before (t, row) =
      (time row ≡ some t)
      × (t < before)
      × (is_completed row ≡ true)
      × (is_among settled (get row "conclusion") ≡ true)

  read_rows-cons :
      (created : ℕ) (row : Row) (rows : List Value) (out : List (ℕ × Row))
      → read_rows fromisoformat created (obj row ∷ rows) ≡ some out
      → (at : ℕ) × (more : List (ℕ × Row)) × (time row ≡ some at)
        × (read_rows fromisoformat created rows ≡ some more)
        × (out ≡ add_candidate created at row more)
  unfolding read_rows
  read_rows-cons created row rows out e = elim (Bool-cases (is_known row)) [
    | inr wrong ↦ absurd (nothing (rw wrong at e))
    | inl known ↦
        let (at, f, g) = bound (time row) _ _ (rw known at e) in
        elim (Bool-cases (has_outcome row)) [
          | inr wrong ↦ absurd (nothing (rw wrong at g))
          | inl good ↦
              let (more, h, k) = bound (read_rows fromisoformat created rows) _ _ (rw good at g) in
              (at, more, f, h, sym (some-injective _ _ k))
        ]
  ]
    where
      nothing : ◌≡◌ {A = Option (List (ℕ × Row))} none (some out) → ⊥
      nothing g = cc

  obj-injective : {r s : Row} → obj r ≡ obj s → r ≡ s
  obj-injective h = cc

  Earlier-candidate :
      (before at : ℕ) (row : Row)
      → time row ≡ some at
      → (is_candidate before at row ≡ true) ↔ Earlier before (at, row)
  Earlier-candidate before at row e =
      (λ f. (e, ground arith, ground arith, ground arith), λ f. ground arith)

  module _ (before : ℕ) (entry : ℕ × Row) where
    -- An entry of what was read of rows.
    abbrev IsRead : List Value → Type 0
    IsRead rows = Memᴰ (obj entry.1) rows × Earlier before entry

    IsRead-cons :
        (at : ℕ) (row : Row) (rows : List Value) (more : List (ℕ × Row))
        → time row ≡ some at
        → Memᴰ entry more ↔ IsRead rows
        → Memᴰ entry (add_candidate before at row more) ↔ IsRead (obj row ∷ rows)
    IsRead-cons at row rows more timed (into, back) =
        let (seen, add) = Memᴰ-add_candidate before at row more entry in
        (
          λ m. elim (seen m) [
            | inl (e, f) ↦ (
              Memᴰ.head (ap (λ (x : ℕ × Row). obj x.1) e),
              subst (Earlier before) (sym e) ((Earlier-candidate before at row timed).0 f),
            )
            | inr n ↦ (Memᴰ.tail (into n).0, (into n).1)
          ],
          λ (m, early). add (by_place m early),
        )
      where
        by_place :
            Memᴰ (obj entry.1) (obj row ∷ rows)
            → Earlier before entry
            → ((entry ≡ (at, row)) × (is_candidate before at row ≡ true)) ⊎ Memᴰ entry more
        by_place (Memᴰ.head p) early =
            let same : entry.1 ≡ row = obj-injective p in
            let when : entry.0 ≡ at = some-injective _ _ (sym early.0 ∙ ap time same ∙ timed) in
            let whole : entry ≡ (at, row) = λ i. (when i, same i) in
            inl (
              whole,
              (Earlier-candidate before at row timed).1 (subst (Earlier before) whole early),
            )
        by_place (Memᴰ.tail m) early = inr (back (m, early))

    read_rows-IsRead :
        (rows : List Value) (out : List (ℕ × Row))
        → read_rows fromisoformat before rows ≡ some out
        → Memᴰ entry out ↔ IsRead rows
    unfolding read_rows
    read_rows-IsRead [] out e =
        (λ m. elim (subst (Memᴰ entry) (sym (some-injective _ _ e)) m) [ ], λ h. elim (h.0) [ ])
    read_rows-IsRead (obj row ∷ rows) out e =
        let (at, more, f, g, h) = read_rows-cons before row rows out e in
        subst (λ l. Memᴰ entry l ↔ IsRead (obj row ∷ rows)) (sym h)
          (IsRead-cons at row rows more f (read_rows-IsRead rows more g))
    read_rows-IsRead (Value.null ∷ rows) out e = cc
    read_rows-IsRead (Value.bool b ∷ rows) out e = cc
    read_rows-IsRead (Value.int n ∷ rows) out e = cc
    read_rows-IsRead (Value.real n s ∷ rows) out e = cc
    read_rows-IsRead (Value.str s ∷ rows) out e = cc
    read_rows-IsRead (Value.arr vs ∷ rows) out e = cc

  -- The first run is not older.
  abbrev pub NotOlder : Row → Row → Type 0
  NotOlder r s = (t u : ℕ) → time r ≡ some t → time s ≡ some u → u ≤ t

  abbrev newer : ℕ × Row → ℕ × Row → Bool
  newer a b = leb b.0 a.0

  abbrev Timed : ℕ × Row → Type 0
  Timed entry = time entry.1 ≡ some entry.0

  All-NotOlder :
      (a : ℕ × Row) (l : List (ℕ × Row))
      → Timed a
      → All Timed l
      → All (λ b. newer a b ≡ true) l
      → All (NotOlder a.1) (map (λ entry. entry.1) l)
  All-NotOlder a [] p ts h = tt
  All-NotOlder a (b ∷ l) p ts h = (
    λ t u f g.
        let e : a.0 ≡ t = some-injective _ _ (sym p ∙ f) in
        let k : b.0 ≡ u = some-injective _ _ (sym ts.0 ∙ g) in
        let m : leb b.0 a.0 ≡ true = h.0 in ground arith,
    All-NotOlder a l p ts.1 h.1,
  )

  Ordered-map :
      (l : List (ℕ × Row))
      → All Timed l
      → IsSorted newer l
      → Ordered NotOlder (map (λ entry. entry.1) l)
  Ordered-map [] ts s = tt
  Ordered-map (a ∷ l) ts s = (All-NotOlder a l ts.0 ts.1 s.0, Ordered-map l ts.1 s.1)

  -- The runs of a list that were created before a time, newest first.
  abbrev pub EarlierRuns : ℕ → List Value → List Row → Type 0
  EarlierRuns before rows runs =
      Ordered NotOlder runs
      × ((run : Row) → Memᴰ run runs ↔ (Memᴰ (obj run) rows × ((t : ℕ) × Earlier before (t, run))))

  sorted-EarlierRuns :
      (before : ℕ) (rows : List Value) (l : List (ℕ × Row))
      → read_rows fromisoformat before rows ≡ some l
      → EarlierRuns before rows (map (λ entry. entry.1) (sort newer l))
  sorted-EarlierRuns before rows l e = (
    Ordered-map (sort newer l) (All-of Timed (sort newer l) (λ entry m. (entry_of m).1.0))
        (sort-IsSorted newer (λ a b h. ground arith) (λ a b c h k. ground arith) l),
    λ run. (
      λ m.
          let (entry, n, p) = Memᴰ-of_map (λ entry. entry.1) (sort newer l) m in
          let (k, early) = entry_of n in
          (
            subst (λ r. Memᴰ (obj r) rows) (sym p) k,
            (entry.0, subst (λ r. Earlier before (entry.0, r)) (sym p) early),
          ),
      λ (m, (t, early)).
          Memᴰ-map (λ entry. entry.1)
            ((Memᴰ-sort_iff newer (t, run) l).1
              ((read_rows-IsRead before (t, run) rows l e).1 (m, early))),
    ),
  )
    where
      entry_of : {entry : ℕ × Row} → Memᴰ entry (sort newer l) → IsRead before entry rows
      entry_of {entry} m =
          (read_rows-IsRead before entry rows l e).0 ((Memᴰ-sort_iff newer entry l).0 m)

  pub predecessors-EarlierRuns :
      (created : String) (body : Value) (runs : List Row)
      → predecessors fromisoformat created body ≡ some runs
      → (before : ℕ) × (rows : List Value) × (timestamp fromisoformat (str created) ≡ some before)
        × Lists body rows
        × EarlierRuns before rows runs
  unfolding predecessors
  predecessors-EarlierRuns created body runs e =
      let (before, f, g) = bound (timestamp fromisoformat (str created)) _ _ e in
      let (rows, h, k) = bound (history body) _ _ g in
      let (l, m, n) = bound (read_rows fromisoformat before rows) _ _ k in
      (
        before,
        rows,
        f,
        history-Lists body rows h,
        subst (EarlierRuns before rows) (some-injective _ _ n) (sorted-EarlierRuns before rows l m),
      )
