-- ===== src/RedMain/Culprit.antt =====
-- .github/red_main/culprit.py: the commit that the ancestors of a red run blame.
use github.Base.{String, ◌<>◌, ◌≡◌, ◌≢◌, refl, ap, inl, inr}
use github.Base.{
  List, [], ◌∷◌, ◌++◌, arith, All, Bool-cases, ◌==◌, string_eq, eq_iff, if◌then◌else◌,
}
use github.Base.Text.{split, is_blank, cut}

-- A commit with its conclusion, which may be blank.
abbrev pub Candidate : Type 0
Candidate = String × String

abbrev candidate : List String → List Candidate → List Candidate
candidate [] rest = rest
candidate (sha ∷ []) rest = if is_blank sha then rest else (sha, "") ∷ rest
candidate (sha ∷ conclusion ∷ more) rest = if is_blank sha then rest else (sha, conclusion) ∷ rest

-- The rows of the lines of standard input, without their ends.
unfoldable pub read_rows : List String → List Candidate
read_rows [] = []
read_rows (line ∷ lines) = let rest = read_rows lines in candidate (split b'\t' line) rest

pub data Blame : Type 0 where
  culprit : String → Blame
  window : String → String → Blame
  nobody : Blame

unfoldable pub blame : List Candidate → Blame
blame [] = nobody
blame ((sha, conclusion) ∷ rows) =
    let rest = blame rows in
    if conclusion == "success"
    then rest
    else if conclusion == "failure"
    then culprit sha
    else window sha conclusion

unfoldable pub print_blame : Blame → List String
unfolding cut
print_blame (culprit sha) = ("culprit " <> sha) ∷ []
print_blame (window sha conclusion) =
    "window"
    ∷ ("why "
        <> (cut 9 sha
            <> (" concluded "
                <> ((if is_blank conclusion then "nothing" else conclusion)
                    <> ", which is inconclusive, at or before the first failure"))))
    ∷ []
print_blame nobody = "none" ∷ []

unfoldable pub main : List String → List String
unfolding read_rows blame print_blame
main lines = print_blame (blame (read_rows lines))

-- The row that decides: those before it succeeded.
abbrev pub DecidedBy : List Candidate → String → String → Type 0
DecidedBy rows sha conclusion =
    (before : List Candidate) × (after : List Candidate) × (rows
      ≡ before ++ (sha, conclusion) ∷ after)
    × All (λ row. row.1 ≡ "success") before

abbrev pub Blames : List Candidate → Blame → Type 0
Blames rows (culprit sha) = DecidedBy rows sha "failure"
Blames rows (window sha conclusion) =
    DecidedBy rows sha conclusion × (conclusion ≢ "success") × (conclusion ≢ "failure")
Blames rows nobody = All (λ row. row.1 ≡ "success") rows

DecidedBy-cons :
    (row : Candidate) (rows : List Candidate) (sha conclusion : String)
    → row.1 ≡ "success"
    → DecidedBy rows sha conclusion
    → DecidedBy (row ∷ rows) sha conclusion
DecidedBy-cons row rows sha conclusion h (before, after, e, all) =
    (row ∷ before, after, ap (◌∷◌ row) e, (h, all))

Blames-cons :
    (row : Candidate) (rows : List Candidate) (b : Blame)
    → row.1 ≡ "success"
    → Blames rows b
    → Blames (row ∷ rows) b
Blames-cons row rows (culprit sha) h d = DecidedBy-cons row rows sha "failure" h d
Blames-cons row rows (window sha conclusion) h (d, p, q) =
    (DecidedBy-cons row rows sha conclusion h d, p, q)
Blames-cons row rows nobody h d = (h, d)

-- A commit is blamed exactly where it failed and every candidate before it succeeded. The answer is
-- a window where the first candidate that did not succeed did not fail either, and nobody where all
-- succeeded.
pub blame-Blames : (rows : List Candidate) → Blames rows (blame rows)
unfolding blame
blame-Blames [] = tt
blame-Blames ((sha, conclusion) ∷ rows) = elim (Bool-cases (conclusion == "success")) [
  | inl e ↦ rw e (
      Blames-cons (sha, conclusion) rows (blame rows) ((eq_iff conclusion "success").0 e)
        (blame-Blames rows))
  | inr e ↦ elim (Bool-cases (conclusion == "failure")) [
    | inl f ↦
        rw (e, f) ([], rows, ap (λ c. (sha, c) ∷ rows) ((eq_iff conclusion "failure").0 f), tt)
    | inr f ↦
        rw (e, f)
          (
            ([], rows, refl, tt),
            λ h. absurd (ground (arith, (eq_iff conclusion "success").1 h)),
            λ h. absurd (ground (arith, (eq_iff conclusion "failure").1 h)),
          )
  ]
]
