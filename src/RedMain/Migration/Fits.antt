-- ===== src/RedMain/Migration/Fits.antt =====
-- What a glob stands for, and when a commit is held for a migration.
use mathlib.Core.List.{Memᴰ}
use mathlib.Core.Path.{subst}
use github.Base.{
  ℕ, String, ◌≡◌, ◌↔◌, ◌⊎◌, refl, ap, ◌∙◌, inl, inr, Bool, true, false, ◌&&◌, Option, none, some,
}
use github.Base.{
  List, [], ◌∷◌, ◌++◌, eqb, arith, All, Bool-cases, any_Memᴰ, Memᴰ-any, Memᴰ-map, Memᴰ-of_map,
  Memᴰ-select_iff, not, sym,
}
use github.RedMain.Migration.Grammar.{Stands, Stands-scan, Stands-glob}
use github.Base.Text.{strip, is_blank, codes, split, lstrip_of}
use github.RedMain.Migration.{
  Piece, directories, anything, within, one, literal, repeats, after_slash, is_inner, matches,
  patterns_of, to_pieces, scan, is_migration, find_migration, migration,
}

-- The names that pieces stand for: a star crosses no slash, two stars cross any, and two stars with a
-- slash are any number of directories.
abbrev pub Fits : List Piece → List ℕ → Type 0
Fits [] s = s ≡ []
Fits (literal d ∷ ps) s = (rest : List ℕ) × (s ≡ d ∷ rest) × Fits ps rest
Fits (one ∷ ps) s = (c : ℕ) × (rest : List ℕ) × (s ≡ c ∷ rest) × (is_inner c ≡ true) × Fits ps rest
Fits (within ∷ ps) s =
    (a : List ℕ) × (rest : List ℕ) × (s ≡ a ++ rest) × All (λ c. is_inner c ≡ true) a × Fits ps rest
Fits (anything ∷ ps) s = (a : List ℕ) × (rest : List ℕ) × (s ≡ a ++ rest) × Fits ps rest
Fits (directories ∷ ps) s =
    Fits ps s ⊎ ((a : List ℕ) × (rest : List ℕ) × (s ≡ a ++ b'/' ∷ rest) × Fits ps rest)

module _ (follows : List ℕ → Bool) where
  repeats-split :
      (test : ℕ → Bool) (s : List ℕ)
      → repeats test follows s ≡ true
      → (a : List ℕ) × (rest : List ℕ) × (s ≡ a ++ rest)
        × All (λ c. test c ≡ true) a
        × (follows rest ≡ true)
  repeats-split test [] e = ([], [], refl, tt, e)
  repeats-split test (c ∷ s) e = elim (Bool-cases (follows (c ∷ s))) [
    | inl here ↦ ([], c ∷ s, refl, tt, here)
    | inr later ↦
        let both : test c && repeats test follows s ≡ true = rw later at e in
        let (a, rest, f, all, g) = repeats-split test s (ground arith) in
        (c ∷ a, rest, ap (λ l. c ∷ l) f, (ground arith, all), g)
  ]

  split-repeats :
      (test : ℕ → Bool) (a rest : List ℕ)
      → All (λ c. test c ≡ true) a
      → follows rest ≡ true
      → repeats test follows (a ++ rest) ≡ true
  split-repeats test [] [] all e = e
  split-repeats test [] (c ∷ rest) all e = rw e refl
  split-repeats test (c ∷ a) rest (p, all) e =
      let later = split-repeats test a rest all e in ground arith

  after_slash-split :
      (s : List ℕ)
      → after_slash follows s ≡ true
      → (a : List ℕ) × (rest : List ℕ) × (s ≡ a ++ b'/' ∷ rest) × (follows rest ≡ true)
  after_slash-split [] e = cc
  after_slash-split (c ∷ s) e = elim (Bool-cases (eqb c b'/' && follows s)) [
    | inl here ↦ let slash : c ≡ b'/' = ground arith in ([], s, ap (λ d. d ∷ s) slash, ground arith)
    | inr later ↦
        let (a, rest, f, g) = after_slash-split s (rw later at e) in
        (c ∷ a, rest, ap (λ l. c ∷ l) f, g)
  ]

  split-after_slash :
      (a rest : List ℕ) → follows rest ≡ true → after_slash follows (a ++ b'/' ∷ rest) ≡ true
  split-after_slash [] rest e = rw e refl
  split-after_slash (c ∷ a) rest e = let later = split-after_slash a rest e in ground arith

matches_iff : (ps : List Piece) (s : List ℕ) → (matches ps s ≡ true) ↔ Fits ps s
unfolding matches
matches_iff [] [] = (λ e. refl, λ e. refl)
matches_iff [] (c ∷ s) = (λ e. cc, λ e. cc)
matches_iff (literal d ∷ ps) [] = (λ e. cc, λ (rest, e, f). cc)
matches_iff (literal d ∷ ps) (c ∷ s) = (
  λ e.
      let same : c ≡ d = ground arith in
      (s, ap (λ b. b ∷ s) same, (matches_iff ps s).0 (ground arith)),
  λ (rest, e, f).
      let here : c ≡ d = cc in
      let tail : rest ≡ s = cc in
      let g = (matches_iff ps s).1 (subst (Fits ps) tail f) in ground arith,
)
matches_iff (one ∷ ps) [] = (λ e. cc, λ (c, rest, e, f, g). cc)
matches_iff (one ∷ ps) (c ∷ s) = (
  λ e. (c, s, refl, ground arith, (matches_iff ps s).0 (ground arith)),
  λ (d, rest, e, f, h).
      let here : c ≡ d = cc in
      let tail : rest ≡ s = cc in
      let g = (matches_iff ps s).1 (subst (Fits ps) tail h) in
      let inner : is_inner c ≡ true = ap is_inner here ∙ f in ground arith,
)
matches_iff (within ∷ ps) s = (
  λ e.
      let (a, rest, f, all, g) = repeats-split (matches ps) is_inner s e in
      (a, rest, f, all, (matches_iff ps rest).0 g),
  λ (a, rest, f, all, g).
      ap (repeats is_inner (matches ps)) f
      ∙ split-repeats (matches ps) is_inner a rest all ((matches_iff ps rest).1 g),
)
matches_iff (anything ∷ ps) s = (
  λ e.
      let (a, rest, f, all, g) = repeats-split (matches ps) (λ c. true) s e in
      (a, rest, f, (matches_iff ps rest).0 g),
  λ (a, rest, f, g).
      ap (repeats (λ c. true) (matches ps)) f
      ∙ split-repeats (matches ps) (λ c. true) a rest (All-true a) ((matches_iff ps rest).1 g),
)
  where
    All-true : (l : List ℕ) → All (λ c. true ≡ true) l
    All-true [] = tt
    All-true (c ∷ l) = (refl, All-true l)
matches_iff (directories ∷ ps) s = (
  λ e. elim (Bool-cases (matches ps s)) [
    | inl here ↦ inl ((matches_iff ps s).0 here)
    | inr later ↦
        let (a, rest, f, g) = after_slash-split (matches ps) s (rw later at e) in
        inr (a, rest, f, (matches_iff ps rest).0 g)
  ],
  λ x. elim x [
    | inl here ↦ rw ((matches_iff ps s).1 here) refl
    | inr (a, rest, f, g) ↦
        let later =
          ap (after_slash (matches ps)) f
          ∙ split-after_slash (matches ps) a rest ((matches_iff ps rest).1 g) in
        ground arith
  ],
)

-- A name that one of the globs stands for: without what is blank around it and the slashes ahead.
abbrev pub IsMigration : String → String → Type 0
IsMigration globs name =
    (is_blank name ≡ false)
    × (glob : String) × Memᴰ glob (split b',' globs)
    × (is_blank (strip glob) ≡ false)
    × (pieces : List Piece) × Stands pieces (codes (lstrip_of (λ c. eqb c b'/') (strip glob)))
    × Fits pieces (codes name)

-- The glob of an element of the list, as it is read.
abbrev glob_codes : String → List ℕ
glob_codes glob = codes (lstrip_of (λ c. eqb c b'/') (strip glob))

Memᴰ-patterns_of :
    (globs : String) (pieces : List Piece)
    → Memᴰ pieces (patterns_of globs) ↔ (
        (glob : String) × Memᴰ glob (split b',' globs)
        × (is_blank (strip glob) ≡ false)
        × Stands pieces (glob_codes glob))
unfolding patterns_of to_pieces
Memᴰ-patterns_of globs pieces = (
  λ m.
      let (glob, n, e) = Memᴰ-of_map (λ g. scan 0 (glob_codes g)) _ m in
      let (inside, named) =
        (Memᴰ-select_iff (λ g. not (is_blank (strip g))) glob (split b',' globs)).0 n in
      (
        glob,
        inside,
        ground arith,
        subst (λ ps. Stands ps (glob_codes glob)) (sym e) (Stands-glob (glob_codes glob)),
      ),
  λ (glob, m, named, stands).
      let is_named : not (is_blank (strip glob)) ≡ true = ground arith in
      let n =
        (Memᴰ-select_iff (λ g. not (is_blank (strip g))) glob (split b',' globs)).1 (m, is_named) in
      subst (λ ps. Memᴰ ps (patterns_of globs)) (sym (Stands-scan pieces (glob_codes glob) stands))
        (Memᴰ-map (λ g. scan 0 (glob_codes g)) n),
)

is_migration_iff :
    (globs name : String) → (is_migration (patterns_of globs) name ≡ true) ↔ IsMigration globs name
is_migration_iff globs name = (
  λ e.
      let (p, m, f) = any_Memᴰ (λ p. matches p (codes name)) (patterns_of globs) (ground arith) in
      let (glob, n, named, stands) = (Memᴰ-patterns_of globs p).0 m in
      (ground arith, glob, n, named, p, stands, (matches_iff p (codes name)).0 f),
  λ (named, glob, n, set, p, stands, f).
      let m = (Memᴰ-patterns_of globs p).1 (glob, n, set, stands) in
      let g = Memᴰ-any (λ p. matches p (codes name)) m ((matches_iff p (codes name)).1 f) in
      ground arith,
)

-- What is found among the lines.
abbrev pub Finds : String → List String → Option String → Type 0
Finds globs lines none = All (λ line. ¬ IsMigration globs (strip line)) lines
Finds globs lines (some name) =
    (before : List String) × (line : String) × (after : List String) × (lines
      ≡ before ++ line ∷ after)
    × (name ≡ strip line)
    × IsMigration globs name
    × All (λ other. ¬ IsMigration globs (strip other)) before

Finds-cons :
    (globs : String) (line : String) (lines : List String) (found : Option String)
    → ¬ IsMigration globs (strip line)
    → Finds globs lines found
    → Finds globs (line ∷ lines) found
Finds-cons globs line lines none h all = (h, all)
Finds-cons globs line lines (some name) h (before, at, after, e, f, g, all) =
    (line ∷ before, at, after, ap (λ l. line ∷ l) e, f, g, (h, all))

find_migration-Finds :
    (globs : String) (lines : List String)
    → Finds globs lines (find_migration (patterns_of globs) lines)
unfolding find_migration
find_migration-Finds globs [] = tt
find_migration-Finds globs (line ∷ lines) =
    elim (Bool-cases (is_migration (patterns_of globs) (strip line))) [
      | inl found ↦
          rw found ([], line, lines, refl, refl, (is_migration_iff globs (strip line)).0 found, tt)
      | inr other ↦ rw other (
          Finds-cons globs line lines (find_migration (patterns_of globs) lines)
            (λ h. let f = (is_migration_iff globs (strip line)).1 h in absurd (ground arith))
            (find_migration-Finds globs lines))
    ]

-- A commit is held for the first of its files, their names without what is blank around them, that
-- one of the comma-separated globs stands for, and for none exactly where no glob stands for any of
-- them. A star and a question mark of a glob match no slash, two stars match anything, two stars with
-- a slash any number of directories, and every other character itself; blank globs and slashes ahead
-- of a glob do not count.
pub migration-Finds :
    (globs : String) (lines : List String) → Finds globs lines (migration globs lines)
unfolding migration
migration-Finds globs lines = find_migration-Finds globs lines
