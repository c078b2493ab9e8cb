-- ===== src/WorkflowLint/Ordered.antt =====
-- The order of the filters: the last one that matches decides.
use mathlib.Core.Option.{some-injective}
use github.Base.{
  String, ◌≡◌, ◌⊎◌, refl, ap, sym, inl, inr, Bool, true, false, not, Option, none, some,
}
use github.Base.{List, [], ◌∷◌, ◌++◌, All, Bool-cases}
use github.Base.Text.{codes}
use github.WorkflowLint.Paths.{
  Token, and_then, pattern_regex, fullmatch, signed, decide, select_from, matches_path,
}

module _ (path : String) where
  -- A filter that was compiled, and matches the path or not.
  abbrev pub Answers : Bool → String → Type 0
  Answers b pattern =
      (tokens : List Token) × (pattern_regex (signed pattern).1 ≡ some tokens)
      × (fullmatch tokens (codes path) ≡ b)

  abbrev pub LastMatch : List String → Bool → Bool → Type 0
  LastMatch patterns selected b =
      ((b ≡ selected) × All (Answers false) patterns)
      ⊎ ((before : List String) × (pattern : String) × (after : List String) × (patterns
            ≡ before ++ pattern ∷ after)
          × (b ≡ not (signed pattern).0)
          × Answers true pattern
          × All (Answers false) after)

  LastMatch-missed :
      (pattern : String) (patterns : List String) (selected b : Bool)
      → Answers false pattern
      → LastMatch patterns selected b
      → LastMatch (pattern ∷ patterns) selected b
  LastMatch-missed pattern patterns selected b h (inl (e, all)) = inl (e, (h, all))
  LastMatch-missed pattern patterns selected b h (inr (before, p, after, e, f, g, k)) =
      inr (pattern ∷ before, p, after, ap (λ l. pattern ∷ l) e, f, g, k)

  LastMatch-matched :
      (pattern : String) (patterns : List String) (selected b : Bool)
      → Answers true pattern
      → LastMatch patterns (not (signed pattern).0) b
      → LastMatch (pattern ∷ patterns) selected b
  LastMatch-matched pattern patterns selected b h (inl (e, all)) =
      inr ([], pattern, patterns, refl, e, h, all)
  LastMatch-matched pattern patterns selected b h (inr (before, p, after, e, f, g, k)) =
      inr (pattern ∷ before, p, after, ap (λ l. pattern ∷ l) e, f, g, k)

  select_from-LastMatch :
      (patterns : List String) (selected b : Bool)
      → select_from patterns path selected ≡ some b
      → LastMatch patterns selected b
  unfolding select_from
  select_from-LastMatch [] selected b e = inl (sym (some-injective _ _ e), tt)
  select_from-LastMatch (pattern ∷ patterns) selected b e =
      by_tokens (pattern_regex (signed pattern).1) refl e
        (λ start f. select_from-LastMatch patterns start b f)
    where
      by_tokens :
          (o : Option (List Token))
          → pattern_regex (signed pattern).1 ≡ o
          → and_then o
              (λ tokens. select_from patterns path (decide (signed pattern).0 path tokens selected))
            ≡ some b
          → ((start : Bool) → select_from patterns path start ≡ some b → LastMatch patterns start b)
          → LastMatch (pattern ∷ patterns) selected b
      by_tokens none f g rest = cc
      by_tokens (some tokens) f g rest = elim (Bool-cases (fullmatch tokens (codes path))) [
        | inl h ↦ LastMatch-matched pattern patterns selected b (tokens, f, h) (rest _ (rw h at g))
        | inr h ↦ LastMatch-missed pattern patterns selected b (tokens, f, h) (rest _ (rw h at g))
      ]

  -- Where no filter is refused, a path is selected exactly by the last filter that matches it, if this
  -- one does not exclude: every later filter misses it, and a path that all miss is not selected.
  pub matches_path-LastMatch :
      (patterns : List String) (b : Bool)
      → matches_path patterns path ≡ some b
      → LastMatch patterns false b
  unfolding matches_path
  matches_path-LastMatch patterns b e = select_from-LastMatch patterns false b e
