-- ===== src/RedMain/Migration.antt =====
-- .github/red_main/migration.py: whether a commit touches a migration. A glob is the list of what its
-- expression is made of, and a name has no line feed, being one line.
pub mod Grammar
pub mod Fits
mod Tests
use github.Base.{ℕ, zero, suc, String, Bool, true, false, not, ◌&&◌, ◌||◌, Option, none, some}
use github.Base.{List, [], ◌∷◌, map, select, any, eqb, if◌then◌else◌}
use github.Base.Text.{split, strip, is_blank, codes, lstrip_of}

-- The pieces of an expression: (?:.*/)?, .*, [^/]*, [^/] and a character.
pub data Piece : Type 0 where
  directories anything within one : Piece
  literal : ℕ → Piece

abbrev pub second_is : ℕ → List ℕ → Bool
second_is c [] = false
second_is c (d ∷ ds) = eqb d c

abbrev pub third_is : ℕ → List ℕ → Bool
third_is c [] = false
third_is c (d ∷ ds) = second_is c ds

abbrev pub piece_of : ℕ → Piece
piece_of c = if eqb c b'*' then within else if eqb c b'?' then one else literal c

-- The piece at a character of a glob, and how many characters after it belong to it.
abbrev pub next : ℕ → List ℕ → Piece × ℕ
next c rest =
    if eqb c b'*' && second_is b'*' rest
    then if third_is b'/' rest then (directories, 2) else (anything, 1)
    else (piece_of c, 0)

-- The loop of `to_regex`, which passes over the characters of the last piece.
unfoldable pub scan : ℕ → List ℕ → List Piece
scan skipped [] = []
scan zero (c ∷ rest) = (next c rest).0 ∷ scan (next c rest).1 rest
scan (suc skipped) (c ∷ rest) = scan skipped rest

unfoldable pub to_pieces : String → List Piece
unfolding scan
to_pieces glob = scan 0 (codes glob)

-- A match of what may repeat a character, and then of what follows.
abbrev pub repeats : (ℕ → Bool) → (List ℕ → Bool) → List ℕ → Bool
repeats test follows [] = follows []
repeats test follows (c ∷ s) = follows (c ∷ s) || (test c && repeats test follows s)

-- A match that begins after a slash.
abbrev pub after_slash : (List ℕ → Bool) → List ℕ → Bool
after_slash follows [] = false
after_slash follows (c ∷ s) = (eqb c b'/' && follows s) || after_slash follows s

abbrev pub is_inner : ℕ → Bool
is_inner c = not (eqb c b'/')

abbrev head_passes : (ℕ → Bool) → (List ℕ → Bool) → List ℕ → Bool
head_passes test follows [] = false
head_passes test follows (c ∷ s) = test c && follows s

-- `rx.match(name)` of the whole name
unfoldable pub matches : List Piece → List ℕ → Bool
matches [] [] = true
matches [] (c ∷ s) = false
matches (literal d ∷ ps) s = head_passes (λ c. eqb c d) (matches ps) s
matches (one ∷ ps) s = head_passes is_inner (matches ps) s
matches (within ∷ ps) s = repeats is_inner (matches ps) s
matches (anything ∷ ps) s = repeats (λ c. true) (matches ps) s
matches (directories ∷ ps) s = matches ps s || after_slash (matches ps) s

-- The patterns of a comma-separated list of globs.
unfoldable pub patterns_of : String → List (List Piece)
unfolding to_pieces
patterns_of globs =
    map (λ g. to_pieces (lstrip_of (λ c. eqb c b'/') (strip g)))
      (select (λ g. not (is_blank (strip g))) (split b',' globs))

abbrev pub is_migration : List (List Piece) → String → Bool
is_migration patterns name = not (is_blank name) && any (λ p. matches p (codes name)) patterns

unfoldable pub find_migration : List (List Piece) → List String → Option String
unfolding matches
find_migration patterns [] = none
find_migration patterns (line ∷ lines) =
    let rest = find_migration patterns lines in
    if is_migration patterns (strip line) then some (strip line) else rest

-- The name that is printed, or none.
unfoldable pub migration : String → List String → Option String
unfolding patterns_of find_migration
migration globs lines = find_migration (patterns_of globs) lines
