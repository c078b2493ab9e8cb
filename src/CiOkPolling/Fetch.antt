-- ===== src/CiOkPolling/Fetch.antt =====
-- `fetch` and `fetch_suites` of ci-ok-polling/ci_ok.py: the pages of a list, until it is complete.
use github.Base.Pieces.{drop, take-drop, length-drop, drop-drop, nil_of_length}
use github.Base.{
  ℕ, zero, suc, ◌+◌, ◌*◌, ◌-◌, ◌≤◌, ◌<◌, ◌≡◌, refl, ◌∙◌, ap, sym, true, false, ◌||◌, Option, none,
  some,
}
use github.Base.{
  List, [], ◌∷◌, ◌++◌, arith, length, take, is_empty, leb, if◌then◌else◌, length-append, Bool-cases,
  inl, inr, leb→le,
}
use mathlib.Core.List.{append-nil, append_assoc}

-- One answer of the API: `total_count` and the rows of a page.
pub record Page (A : Type 0) : Type 0 where
  pub total : ℕ
  pub rows : List A

module _ {A : Type 0} (get : ℕ → Page A) where
  -- The `while True` over the pages from `page` on; `none` means that the fuel ran out.
  unfoldable pub fetch_from : ℕ → ℕ → List A → Option (List A)
  fetch_from zero page rows = none
  fetch_from (suc fuel) page rows =
      let all_rows = rows ++ (get page).rows in
      let rest = fetch_from fuel (page + 1) all_rows in
      if leb (get page).total (length all_rows) || is_empty (get page).rows
      then some all_rows
      else rest

  unfoldable pub fetch : ℕ → Option (List A)
  unfolding fetch_from
  fetch fuel = fetch_from fuel 1 []

-- The API as documented: pages of `size` rows of one list, counted from 1, each with the list's
-- length.
abbrev pub served : {A : Type 0} → ℕ → List A → ℕ → Page A
served size whole page = record {
  total = length whole;
  rows = take size (drop (size * (page - 1)) whole);
}

module _ {A : Type 0} (k : ℕ) (whole : List A) where
  -- Nothing is left once as many rows are read as there are.
  nothing_left :
      (rows rest : List A)
      → rows ++ rest ≡ whole
      → length whole ≤ length (rows ++ take (suc k) rest)
      → drop (suc k) rest ≡ []
  nothing_left rows rest e h = nil_of_length _ (
      omega (
        arith,
        ap length e,
        length-append rows rest,
        length-append rows (take (suc k) rest),
        length-append (take (suc k) rest) (drop (suc k) rest),
        ap length (take-drop (suc k) rest),
      ))

  -- The last page read is the one after which nothing is left.
  all_read :
      (rows rest : List A)
      → rows ++ rest ≡ whole
      → (leb (length whole) (length (rows ++ take (suc k) rest)) || is_empty (take (suc k) rest))
        ≡ true
      → rows ++ take (suc k) rest ≡ whole
  all_read rows [] e h = e
  all_read rows (x ∷ rest) e h =
      let page : List A = take (suc k) (x ∷ rest) in
      let nothing = nothing_left rows (x ∷ rest) e (leb→le _ _ (ground arith)) in
      ap (λ l. rows ++ l)
        (sym (append-nil page) ∙ ap (λ l. page ++ l) (sym nothing) ∙ take-drop (suc k) (x ∷ rest))
      ∙ e

  shorter :
      (fuel : ℕ) (rest : List A)
      → is_empty (take (suc k) rest) ≡ false
      → length rest < suc fuel
      → length (drop (suc k) rest) < fuel
  shorter fuel [] f h = cc
  shorter fuel (x ∷ rest) f h = omega (arith, length-drop (suc k) (x ∷ rest))

  fetch_from-served :
      (fuel page : ℕ) (rows rest : List A)
      → 0 < page
      → rest ≡ drop (suc k * (page - 1)) whole
      → rows ++ rest ≡ whole
      → length rest < fuel
      → fetch_from (served (suc k) whole) fuel page rows ≡ some whole
  unfolding fetch_from
  fetch_from-served zero page rows rest p d e h = absurd (omega arith)
  fetch_from-served (suc fuel) page rows rest p d e h =
      elim (Bool-cases
        (leb (length whole) (length (rows ++ take (suc k) rest)) || is_empty (take (suc k) rest))) [
          | inl done ↦ rw (← d, done) (ap some (all_read rows rest e done))
          | inr more ↦
              rw (← d, more)
                (fetch_from-served fuel (page + 1) (rows ++ take (suc k) rest) (drop (suc k) rest)
                  (omega arith)
                  (ap (drop (suc k)) d
                    ∙ drop-drop (suc k) (suc k * (page - 1)) whole
                    ∙ ap (λ n. drop n whole) (next page p))
                  (append_assoc rows (take (suc k) rest) (drop (suc k) rest)
                    ∙ ap (λ l. rows ++ l) (take-drop (suc k) rest)
                    ∙ e)
                  (shorter fuel rest (ground arith) h))
        ]
    where
      next : (page : ℕ) → 0 < page → suc k * (page - 1) + suc k ≡ suc k * (page + 1 - 1)
      next zero p = absurd (omega arith)
      next (suc j) p =
          let before : suc j - 1 ≡ j = omega arith in
          let after : suc j + 1 - 1 ≡ suc j = omega arith in rw (before, after) (omega arith)

  -- With more fuel than rows, the whole list is read from an API that serves it in pages, whatever
  -- the size of a page.
  pub fetch-served :
      (fuel : ℕ) → length whole < fuel → fetch (served (suc k) whole) fuel ≡ some whole
  unfolding fetch drop
  fetch-served fuel h =
      let start : 0 ≡ suc k * (1 - 1) = omega arith in
      fetch_from-served fuel 1 [] whole (omega arith) (ap (λ n. drop n whole) start) refl h
