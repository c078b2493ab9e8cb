-- ===== src/CiRange/Selected.antt =====
-- When a lane is selected.
use mathlib.Core.List.{Memᴰ}
use mathlib.Core.Option.{some-injective}
use mathlib.Core.Path.{subst}
use github.Base.{
  String, ◌≡◌, ◌↔◌, ◌⊎◌, refl, ap, sym, ◌∙◌, inl, inr, Bool, true, false, not, ◌||◌, Option, none,
  some,
}
use github.Base.{
  List, [], ◌∷◌, map, any, is_empty, contains, arith, contains_iff, Memᴰ-select_iff, Memᴰ-map,
  Memᴰ-of_map, any_Memᴰ, Memᴰ-any, is_empty_iff, string_eq, Bool-cases,
}
use github.Base.{select as select_where}
use github.Base.Dict.{Dict, lookup, lookup-map}
use github.Base.Text.{split, strip, is_blank, starts_with}
use github.CiRange.Lanes.{
  Lanes, lane_name, runs, wanted_of, narrow, select, is_everything, matches_any, is_some,
}

module _ (matches : String → String → Bool) where
  -- A change of a workflow, or of a path that one of the patterns matches.
  abbrev pub TouchedBy : List String → List String → Type 0
  TouchedBy paths patterns =
      (path : String) × Memᴰ path paths
      × ((starts_with path ".github/" ≡ true)
          ⊎ ((pattern : String) × Memᴰ pattern patterns × (matches path pattern ≡ true)))

  -- The range asks for a lane of these patterns: there is no base, a workflow changed, it has no
  -- patterns or the pattern of all paths, or one of its patterns matches a path that changed.
  abbrev pub IsTouched : Option (List String) → List String → Type 0
  IsTouched changed patterns =
      (changed ≡ none)
      ⊎ (patterns ≡ [])
      ⊎ Memᴰ "*" patterns
      ⊎ ((paths : List String) × (changed ≡ some paths) × TouchedBy paths patterns)

  abbrev touches : List String → String → Bool
  touches patterns path = starts_with path ".github/" || any (matches path) patterns

  touches_iff :
      (patterns : List String) (path : String)
      → (touches patterns path ≡ true) ↔ (
          (starts_with path ".github/" ≡ true)
          ⊎ ((pattern : String) × Memᴰ pattern patterns × (matches path pattern ≡ true)))
  touches_iff patterns path = (
    λ e. elim (Bool-cases (starts_with path ".github/")) [
      | inl f ↦ inl f
      | inr f ↦ inr (any_Memᴰ (matches path) patterns (rw f at e))
    ],
    λ x. elim x [
      | inl f ↦ rw f refl
      | inr (pattern, m, f) ↦ let g = Memᴰ-any (matches path) m f in ground arith
    ],
  )

  -- The two loops of the comprehension are one over the paths.
  any-touches :
      (patterns paths : List String)
      → (any (λ path. starts_with path ".github/") paths
          || any (λ path. any (matches path) patterns) paths)
        ≡ any (touches patterns) paths
  any-touches patterns [] = refl
  any-touches patterns (path ∷ paths) = ground (arith, any-touches patterns paths)

  TouchedBy-iff :
      (paths patterns : List String)
      → (any (touches patterns) paths ≡ true) ↔ TouchedBy paths patterns
  TouchedBy-iff paths patterns = (
    λ e.
        let (path, m, f) = any_Memᴰ (touches patterns) paths e in
        (path, m, (touches_iff patterns path).0 f),
    λ (path, m, f). Memᴰ-any (touches patterns) m ((touches_iff patterns path).1 f),
  )

  abbrev in_range : Option (List String) → List String → Bool
  in_range changed patterns = is_everything matches changed || matches_any matches changed patterns

  in_range_iff :
      (changed : Option (List String)) (patterns : List String)
      → (in_range changed patterns ≡ true) ↔ (
          (changed ≡ none)
          ⊎ ((paths : List String) × (changed ≡ some paths) × TouchedBy paths patterns))
  in_range_iff none patterns = (λ e. inl refl, λ e. refl)
  in_range_iff (some paths) patterns = (
    λ e. inr (paths, refl, (TouchedBy-iff paths patterns).0 (sym (any-touches patterns paths) ∙ e)),
    λ x. elim x [
      | inl e ↦ absurd (nothing e)
      | inr (others, e, t) ↦
          any-touches patterns paths
          ∙ (TouchedBy-iff paths patterns).1
              (subst (λ l. TouchedBy l patterns) (sym (some-injective _ _ e)) t)
    ],
  )
    where
      nothing : ◌≡◌ {A = Option (List String)} (some paths) none → ⊥
      nothing e = cc

  runs_iff :
      (changed : Option (List String)) (patterns : List String)
      → (runs matches changed patterns ≡ true) ↔ IsTouched changed patterns
  unfolding runs
  runs_iff changed patterns = (
    λ e. elim (Bool-cases (is_empty patterns)) [
      | inl f ↦ inr (inl ((is_empty_iff patterns).0 f))
      | inr f ↦ elim (Bool-cases (contains patterns "*")) [
        | inl g ↦ inr (inr (inl ((contains_iff patterns "*").0 g)))
        | inr g ↦ elim ((in_range_iff changed patterns).0 (ground arith)) [
          | inl h ↦ inl h
          | inr h ↦ inr (inr (inr h))
        ]
      ]
    ],
    λ x. elim x [
      | inl e ↦ let f = (in_range_iff changed patterns).1 (inl e) in ground arith
      | inr (inl e) ↦ let f = (is_empty_iff patterns).1 e in ground arith
      | inr (inr (inl e)) ↦ let f = (contains_iff patterns "*").1 e in ground arith
      | inr (inr (inr e)) ↦ let f = (in_range_iff changed patterns).1 (inr e) in ground arith
    ],
  )

  -- A lane that `only` names, by the name of one of its jobs.
  abbrev pub IsNamed : Lanes → String → String → Type 0
  IsNamed lanes only name =
      ((patterns : List String) × (lookup lanes name ≡ some patterns))
      × (job : String) × Memᴰ job (split b',' only)
      × (is_blank (strip job) ≡ false)
      × (name ≡ lane_name job)

  is_some_iff :
      (o : Option (List String))
      → (is_some o ≡ true) ↔ ((patterns : List String) × (o ≡ some patterns))
  is_some_iff none = (λ e. cc, λ (patterns, e). cc)
  is_some_iff (some patterns) = (λ e. (patterns, refl), λ x. refl)

  Memᴰ-wanted_of_iff :
      (lanes : Lanes) (only name : String)
      → Memᴰ name (wanted_of matches lanes only) ↔ IsNamed lanes only name
  unfolding wanted_of
  Memᴰ-wanted_of_iff lanes only name = (
    λ m.
        let (n, f) = (Memᴰ-select_iff _ name _).0 m in
        let (job, k, e) = Memᴰ-of_map lane_name _ n in
        let (l, g) = (Memᴰ-select_iff _ job _).0 k in
        ((is_some_iff (lookup lanes name)).0 f, job, l, ground arith, e),
    λ (lane, job, l, g, e). (Memᴰ-select_iff _ name _).1 (
      subst
          (λ x.
            Memᴰ x (map lane_name (select_where (λ x. not (is_blank (strip x))) (split b',' only))))
          (sym e) (Memᴰ-map lane_name ((Memᴰ-select_iff _ job _).1 (l, ground arith))),
      (is_some_iff (lookup lanes name)).1 lane,
    ),
  )

  -- What the named lanes leave of a decision.
  abbrev decided : List String → String → Bool → Bool
  decided [] name on = on
  decided (other ∷ names) name on = contains (other ∷ names) name

  lookup-narrow :
      (names : List String) (run : Dict String Bool) (name : String)
      → lookup (narrow matches names run) name
        ≡ elim (lookup run name) [ none ↦ none | some on ↦ some (decided names name on) ]
  lookup-narrow [] run name = unchanged (lookup run name)
    where
      unchanged : (o : Option Bool) → o ≡ elim o [ none ↦ none | some on ↦ some on ]
      unchanged none = refl
      unchanged (some on) = refl
  lookup-narrow (other ∷ names) run name =
      lookup-map (λ lane on. contains (other ∷ names) lane) run name

  decided_iff :
      (names : List String) (name : String) (on : Bool)
      → (decided names name on ≡ true)
        ↔ (Memᴰ name names ⊎ (((other : String) → ¬ Memᴰ other names) × (on ≡ true)))
  decided_iff [] name on = (
    λ e. inr (λ other m. elim m [ ], e),
    λ x. elim x [ inl m ↦ elim m [ ] | inr (none_named, e) ↦ e ],
  )
  decided_iff (other ∷ names) name on = (
    λ e. inl ((contains_iff (other ∷ names) name).0 e),
    λ x. elim x [
      | inl m ↦ (contains_iff (other ∷ names) name).1 m
      | inr (none_named, e) ↦ absurd (none_named other (Memᴰ.head refl))
    ],
  )

  abbrev chosen :
      Lanes → Option (List String) → String → String → Option (List String) → Option Bool
  chosen lanes changed only name none = none
  chosen lanes changed only name (some patterns) =
      some (decided (wanted_of matches lanes only) name (runs matches changed patterns))

  lookup-select :
      (lanes : Lanes) (changed : Option (List String)) (only name : String)
      → lookup (select matches lanes changed only) name
        ≡ chosen lanes changed only name (lookup lanes name)
  unfolding select
  lookup-select lanes changed only name =
      lookup-narrow (wanted_of matches lanes only) _ name
      ∙ ap told (lookup-map (λ lane patterns. runs matches changed patterns) lanes name)
      ∙ composed (lookup lanes name)
    where
      told : Option Bool → Option Bool
      told o = elim o [
        | none ↦ none
        | some on ↦ some (decided (wanted_of matches lanes only) name on)
      ]

      composed :
          (o : Option (List String))
          → told (elim o [ none ↦ none | some patterns ↦ some (runs matches changed patterns) ])
            ≡ chosen lanes changed only name o
      composed none = refl
      composed (some patterns) = refl

  chosen_iff :
      (lanes : Lanes) (changed : Option (List String)) (only name : String)
      (o : Option (List String))
      → (chosen lanes changed only name o ≡ some true) ↔ (
          (patterns : List String) × (o ≡ some patterns)
          × (decided (wanted_of matches lanes only) name (runs matches changed patterns) ≡ true))
  chosen_iff lanes changed only name none = (λ e. cc, λ (patterns, e, f). cc)
  chosen_iff lanes changed only name (some patterns) = (
    λ e. (patterns, refl, some-injective _ _ e),
    λ (others, e, f). ap some (
        subst (λ l. decided (wanted_of matches lanes only) name (runs matches changed l) ≡ true)
          (sym (some-injective _ _ e)) f),
  )

  decides_iff :
      (lanes : Lanes) (changed : Option (List String)) (only name : String) (patterns : List String)
      → (decided (wanted_of matches lanes only) name (runs matches changed patterns) ≡ true) ↔ (
          IsNamed lanes only name
          ⊎ (((other : String) → ¬ IsNamed lanes only other) × IsTouched changed patterns))
  decides_iff lanes changed only name patterns = (
    λ e. elim ((decided_iff _ name _).0 e) [
      | inl m ↦ inl ((Memᴰ-wanted_of_iff lanes only name).0 m)
      | inr (unnamed, f) ↦ inr (
        λ other h. unnamed other ((Memᴰ-wanted_of_iff lanes only other).1 h),
        (runs_iff changed patterns).0 f,
      )
    ],
    λ x. (decided_iff _ name _).1 (elim x [
      | inl h ↦ inl ((Memᴰ-wanted_of_iff lanes only name).1 h)
      | inr (unnamed, t) ↦ inr (
        λ other m. unnamed other ((Memᴰ-wanted_of_iff lanes only other).0 m),
        (runs_iff changed patterns).1 t,
      )
    ]),
  )

  -- A lane runs exactly when it is declared and `only` names it, or `only` names no declared lane
  -- and the range asks for it: there is no base, a workflow changed, or its patterns match a change,
  -- are none, or have the pattern of all paths.
  pub select-true_iff :
      (lanes : Lanes) (changed : Option (List String)) (only name : String)
      → (lookup (select matches lanes changed only) name ≡ some true) ↔ (
          (patterns : List String) × (lookup lanes name ≡ some patterns)
          × (IsNamed lanes only name
              ⊎ (((other : String) → ¬ IsNamed lanes only other) × IsTouched changed patterns)))
  select-true_iff lanes changed only name = (
    λ e.
        let (patterns, f, g) =
          (chosen_iff lanes changed only name (lookup lanes name)).0
            (sym (lookup-select lanes changed only name) ∙ e) in
        (patterns, f, (decides_iff lanes changed only name patterns).0 g),
    λ (patterns, f, x).
        lookup-select lanes changed only name
        ∙ (chosen_iff lanes changed only name (lookup lanes name)).1
            (patterns, f, (decides_iff lanes changed only name patterns).1 x),
  )
