-- ===== src/WorkflowLint/Paths.antt =====
-- .github/actions/workflow-lint/github_paths.py: a filter is compiled to the tokens of its expression,
-- and `none` is the ValueError of one that is refused.
use github.Base.{ℕ, zero, suc, String, Bool, true, false, not, ◌&&◌, ◌||◌, Option, none, some}
use github.Base.{◌≡◌, refl, List, [], ◌∷◌, ◌++◌, any, all, is_empty, leb, eqb, if◌then◌else◌}
use github.Base.Text.{codes, strip_prefix}

-- A character of a class: alone, or a range.
pub data Range : Type 0 where
  single : ℕ → Range
  between : ℕ → ℕ → Range

-- What a quantifier may follow: a character, or a class.
pub data Atom : Type 0 where
  literal : ℕ → Atom
  class : List Range → Atom

-- A token: (?:.*/)?, .*, [^/]*, an atom, and an atom with a quantifier.
pub data Token : Type 0 where
  directories anything within : Token
  one optional several : Atom → Token

-- The rest of a loop over a pattern.
abbrev pub and_then : {A B : Type 0} → Option A → (A → Option B) → Option B
and_then none f = none
and_then (some a) f = f a

-- `tokens[-1]` with a quantifier, where it has none yet.
abbrev quantified : (Atom → Token) → Token → Option Token
quantified how (one a) = some (how a)
quantified how _ = none

unfoldable pub quantify : (Atom → Token) → List Token → Option (List Token)
quantify how [] = none
quantify how (t ∷ []) = and_then (quantified how t) (λ q. some (q ∷ []))
quantify how (t ∷ u ∷ ts) = and_then (quantify how (u ∷ ts)) (λ more. some (t ∷ more))

-- [a-zA-Z0-9-]
abbrev is_class_char : ℕ → Bool
is_class_char c =
    (leb 97 c && leb c 122) || (leb 65 c && leb c 90) || (leb 48 c && leb c 57) || eqb c b'-'

-- The text before the first closing bracket.
abbrev class_text : List ℕ → Option (List ℕ)
class_text [] = none
class_text (c ∷ cs) =
    if eqb c b']' then some [] else and_then (class_text cs) (λ rest. some (c ∷ rest))

-- The ranges of a class, as `re` reads them: a range whose ends are out of order is refused.
unfoldable pub ranges_of : List ℕ → Option (List Range)
ranges_of [] = some []
ranges_of (c ∷ []) = some (single c ∷ [])
ranges_of (c ∷ d ∷ []) = some (single c ∷ single d ∷ [])
ranges_of (c ∷ d ∷ e ∷ rest) =
    let ranged = ranges_of rest in
    let alone = ranges_of (d ∷ e ∷ rest) in
    if eqb d b'-'
    then if leb c e then and_then ranged (λ more. some (between c e ∷ more)) else none
    else and_then alone (λ more. some (single c ∷ more))

abbrev class_of : List ℕ → Option (Token × ℕ)
class_of content =
    if not (is_empty content) && all is_class_char content
    then and_then (ranges_of content) (λ ranges. some (one (class ranges), length_of content))
    else none
  where
    length_of : List ℕ → ℕ
    length_of [] = 1
    length_of (c ∷ cs) = suc (length_of cs)

abbrev second_is : ℕ → List ℕ → Bool
second_is c [] = false
second_is c (d ∷ ds) = eqb d c

abbrev third_is : ℕ → List ℕ → Bool
third_is c [] = false
third_is c (d ∷ ds) = second_is c ds

-- The token at a character that is no quantifier, and how many characters after it belong to it.
unfoldable pub token_at : ℕ → List ℕ → Option (Token × ℕ)
unfolding ranges_of
token_at c rest =
    if eqb c b'*'
    then if second_is b'*' rest
      then if third_is b'/' rest then some (directories, 2) else some (anything, 1)
      else some (within, 0)
    else if eqb c b'['
    then and_then (class_text rest) class_of
    else if eqb c 92
    then none
    else some (one (literal c), 0)

-- The loop of `pattern_regex`, which passes over the characters of the last token.
unfoldable pub scan : ℕ → List ℕ → List Token → Option (List Token)
unfolding quantify token_at
scan skipped [] tokens = some tokens
scan (suc skipped) (c ∷ rest) tokens = scan skipped rest tokens
scan zero (c ∷ rest) tokens =
    if eqb c b'?'
    then and_then (quantify optional tokens) (scan 0 rest)
    else if eqb c b'+'
    then and_then (quantify several tokens) (scan 0 rest)
    else and_then (token_at c rest) (λ found. scan found.1 rest (tokens ++ found.0 ∷ []))

unfoldable pub pattern_regex : String → Option (List Token)
unfolding scan
pattern_regex pattern = scan 0 (codes pattern) []

abbrev in_range : ℕ → Range → Bool
in_range c (single d) = eqb c d
in_range c (between d e) = leb d c && leb c e

abbrev accepts : Atom → ℕ → Bool
accepts (literal d) c = eqb c d
accepts (class ranges) c = any (in_range c) ranges

-- A match of what may repeat a character, and then of what follows.
abbrev repeats : (ℕ → Bool) → (List ℕ → Bool) → List ℕ → Bool
repeats test follows [] = follows []
repeats test follows (c ∷ s) = follows (c ∷ s) || (test c && repeats test follows s)

abbrev head_passes : (ℕ → Bool) → (List ℕ → Bool) → List ℕ → Bool
head_passes test follows [] = false
head_passes test follows (c ∷ s) = test c && follows s

-- What `.` matches: all but a line feed.
abbrev is_any : ℕ → Bool
is_any c = not (eqb c 10)

abbrev is_inner : ℕ → Bool
is_inner c = not (eqb c b'/')

abbrev after_slash : (List ℕ → Bool) → List ℕ → Bool
after_slash follows [] = false
after_slash follows (c ∷ s) = (eqb c b'/' && follows s) || (is_any c && after_slash follows s)

-- `fullmatch` of the tokens
unfoldable pub fullmatch : List Token → List ℕ → Bool
fullmatch [] [] = true
fullmatch [] (c ∷ s) = false
fullmatch (directories ∷ ts) s = fullmatch ts s || after_slash (fullmatch ts) s
fullmatch (anything ∷ ts) s = repeats is_any (fullmatch ts) s
fullmatch (within ∷ ts) s = repeats is_inner (fullmatch ts) s
fullmatch (one a ∷ ts) s = head_passes (accepts a) (fullmatch ts) s
fullmatch (optional a ∷ ts) s = fullmatch ts s || head_passes (accepts a) (fullmatch ts) s
fullmatch (several a ∷ ts) s = head_passes (accepts a) (repeats (accepts a) (fullmatch ts)) s

-- A pattern, and whether it excludes.
abbrev pub signed : String → Bool × String
signed pattern = elim (strip_prefix pattern "!") [
  | none ↦ (false, pattern)
  | some rest ↦ (true, rest)
]

abbrev pub decide : Bool → String → List Token → Bool → Bool
decide excluded path tokens selected =
    if fullmatch tokens (codes path) then not excluded else selected

-- The loop of `matches_path`.
unfoldable pub select_from : List String → String → Bool → Option Bool
unfolding pattern_regex fullmatch
select_from [] path selected = some selected
select_from (pattern ∷ patterns) path selected =
    and_then (pattern_regex (signed pattern).1)
      (λ tokens. select_from patterns path (decide (signed pattern).0 path tokens selected))

unfoldable pub matches_path : List String → String → Option Bool
unfolding select_from
matches_path patterns path = select_from patterns path false

filter_test : matches_path ("src/**" ∷ "!src/[a-c]+.md" ∷ []) "src/ab.md" ≡ some false
unfolding matches_path strip_prefix codes
filter_test = refl

directories_test : matches_path ("**/docs/*.md?" ∷ []) "docs/a.m" ≡ some true
unfolding matches_path strip_prefix codes
directories_test = refl
