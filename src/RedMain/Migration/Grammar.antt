-- ===== src/RedMain/Migration/Grammar.antt =====
-- What the pieces of `to_regex` of migration.py stand for, by a grammar of globs.
use mathlib.Core.Path.{subst}
use github.Base.{
  ℕ, zero, suc, ◌≡◌, refl, ap, sym, ◌∙◌, inl, inr, true, false, ◌&&◌, List, [], ◌∷◌, eqb, arith,
  Bool-cases, if◌then◌else◌,
}
use github.Base.Pieces.{drop}
use github.RedMain.Migration.{
  Piece, directories, anything, within, one, literal, next, piece_of, second_is, scan,
}

-- A list that does not begin with a character.
abbrev pub StartsNot : ℕ → List ℕ → Type 0
StartsNot c [] = Unit
StartsNot c (d ∷ ds) = eqb d c ≡ false

-- Pieces stand for a glob: two stars with a slash are directories, two stars without one anything, a
-- star alone and a question mark stay within a directory, and any other character is itself.
abbrev pub Stands : List Piece → List ℕ → Type 0
Stands [] glob = glob ≡ []
Stands (directories ∷ ps) glob =
    (rest : List ℕ) × (glob ≡ b'*' ∷ b'*' ∷ b'/' ∷ rest) × Stands ps rest
Stands (anything ∷ ps) glob =
    (rest : List ℕ) × (glob ≡ b'*' ∷ b'*' ∷ rest) × StartsNot b'/' rest × Stands ps rest
Stands (within ∷ ps) glob =
    (rest : List ℕ) × (glob ≡ b'*' ∷ rest) × StartsNot b'*' rest × Stands ps rest
Stands (one ∷ ps) glob = (rest : List ℕ) × (glob ≡ b'?' ∷ rest) × Stands ps rest
Stands (literal c ∷ ps) glob =
    (rest : List ℕ) × (glob ≡ c ∷ rest)
    × (eqb c b'*' ≡ false)
    × (eqb c b'?' ≡ false)
    × Stands ps rest

StartsNot-second : (c : ℕ) (l : List ℕ) → second_is c l ≡ false → StartsNot c l
StartsNot-second c [] e = tt
StartsNot-second c (d ∷ ds) e = e

second-StartsNot : (c : ℕ) (l : List ℕ) → StartsNot c l → second_is c l ≡ false
second-StartsNot c [] h = refl
second-StartsNot c (d ∷ ds) h = h

-- A piece of one character.
piece_of-Stands :
    (c : ℕ) (rest : List ℕ)
    → (eqb c b'*' && second_is b'*' rest) ≡ false
    → Stands (scan 0 rest) rest
    → Stands (piece_of c ∷ scan 0 rest) (c ∷ rest)
piece_of-Stands c rest alone h = elim (Bool-cases (eqb c b'*')) [
  | inl star ↦
      let same : c ≡ b'*' = ground arith in
      rw star (rest, ap (λ d. d ∷ rest) same, StartsNot-second b'*' rest (rw star at alone), h)
  | inr other ↦ elim (Bool-cases (eqb c b'?')) [
    | inl mark ↦
        let same : c ≡ b'?' = ground arith in rw (other, mark) (rest, ap (λ d. d ∷ rest) same, h)
    | inr plain ↦ rw (other, plain) (rest, refl, other, plain, h)
  ]
]

-- The piece of two stars.
abbrev of_stars : List ℕ → Piece × ℕ
of_stars rest = if second_is b'/' rest then (directories, 2) else (anything, 1)

-- The piece at a character, and those after it.
next-Stands :
    (c : ℕ) (rest : List ℕ)
    → ((n : ℕ) → Stands (scan n rest) (drop n rest))
    → Stands ((next c rest).0 ∷ scan (next c rest).1 rest) (c ∷ rest)
unfolding drop
next-Stands c rest ih = elim (Bool-cases (eqb c b'*' && second_is b'*' rest)) [
  | inr alone ↦ rw alone (piece_of-Stands c rest alone (ih 0))
  | inl stars ↦ by_rest rest stars ih
]
  where
    by_slash :
        (rest : List ℕ)
        → c ≡ b'*'
        → ((n : ℕ) → Stands (scan n (b'*' ∷ rest)) (drop n (b'*' ∷ rest)))
        → Stands ((of_stars rest).0 ∷ scan (of_stars rest).1 (b'*' ∷ rest)) (c ∷ b'*' ∷ rest)
    by_slash [] same ih = ([], ap (λ d. d ∷ b'*' ∷ []) same, tt, ih 1)
    by_slash (e ∷ rest) same ih = elim (Bool-cases (eqb e b'/')) [
      | inl slash ↦
          let is_slash : e ≡ b'/' = ground arith in
          rw slash (
            rest,
            ap (λ d. d ∷ b'*' ∷ e ∷ rest) same ∙ ap (λ d. b'*' ∷ b'*' ∷ d ∷ rest) is_slash,
            ih 2,
          )
      | inr other ↦ rw other (e ∷ rest, ap (λ d. d ∷ b'*' ∷ e ∷ rest) same, other, ih 1)
    ]

    by_rest :
        (rest : List ℕ)
        → (eqb c b'*' && second_is b'*' rest) ≡ true
        → ((n : ℕ) → Stands (scan n rest) (drop n rest))
        → Stands ((next c rest).0 ∷ scan (next c rest).1 rest) (c ∷ rest)
    by_rest [] stars ih = absurd (ground arith)
    by_rest (d ∷ rest) stars ih =
        let first : c ≡ b'*' = ground arith in
        let second : b'*' ≡ d = ground arith in
        rw stars (
          subst
            (λ d.
              ((n : ℕ) → Stands (scan n (d ∷ rest)) (drop n (d ∷ rest)))
              → Stands ((of_stars rest).0 ∷ scan (of_stars rest).1 (d ∷ rest)) (c ∷ d ∷ rest))
            second (by_slash rest first) ih)

scan-Stands : (n : ℕ) (glob : List ℕ) → Stands (scan n glob) (drop n glob)
unfolding scan drop
scan-Stands zero [] = refl
scan-Stands (suc n) [] = refl
scan-Stands (suc n) (c ∷ rest) = scan-Stands n rest
scan-Stands zero (c ∷ rest) = next-Stands c rest (λ n. scan-Stands n rest)

-- The pieces of a glob are the only ones that stand for it.
pub Stands-scan : (ps : List Piece) (glob : List ℕ) → Stands ps glob → ps ≡ scan 0 glob
unfolding scan
Stands-scan [] glob e = sym (ap (scan 0) e)
Stands-scan (directories ∷ ps) glob (rest, e, h) =
    ap (λ l. directories ∷ l) (Stands-scan ps rest h) ∙ sym (ap (scan 0) e)
Stands-scan (anything ∷ ps) glob (rest, e, f, h) =
    let plain = second-StartsNot b'/' rest f in
    let here : scan 0 (b'*' ∷ b'*' ∷ rest) ≡ anything ∷ scan 0 rest = rw plain refl in
    ap (λ l. anything ∷ l) (Stands-scan ps rest h) ∙ sym here ∙ sym (ap (scan 0) e)
Stands-scan (within ∷ ps) glob (rest, e, f, h) =
    let alone = second-StartsNot b'*' rest f in
    let here : scan 0 (b'*' ∷ rest) ≡ within ∷ scan 0 rest = rw alone refl in
    ap (λ l. within ∷ l) (Stands-scan ps rest h) ∙ sym here ∙ sym (ap (scan 0) e)
Stands-scan (one ∷ ps) glob (rest, e, h) =
    ap (λ l. one ∷ l) (Stands-scan ps rest h) ∙ sym (ap (scan 0) e)
Stands-scan (literal c ∷ ps) glob (rest, e, f, g, h) =
    let here : scan 0 (c ∷ rest) ≡ literal c ∷ scan 0 rest = rw (f, g) refl in
    ap (λ l. literal c ∷ l) (Stands-scan ps rest h) ∙ sym here ∙ sym (ap (scan 0) e)

pub Stands-glob : (glob : List ℕ) → Stands (scan 0 glob) glob
unfolding drop
Stands-glob glob = scan-Stands 0 glob
