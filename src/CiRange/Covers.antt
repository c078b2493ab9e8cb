-- ===== src/CiRange/Covers.antt =====
-- What the range of a push covers.
use mathlib.Core.Option.{some-injective}
use mathlib.Core.Path.{subst}
use github.Base.{
  [], String, ◌≡◌, ◌⊎◌, refl, ap, sym, ◌∙◌, inl, inr, Bool, true, false, ◌||◌, Option, none, some,
  List, ℕ,
}
use github.Base.{◌==◌, string_eq, length, Bool-cases}
use github.Base.Text.{is_blank, split_lines}
use github.Base.Dict.{Dict}
use github.Json.{Value, Fields, str}
use github.RedMain.Proof.Pages.{and_then}
use github.RedMain.Proof.Proven.{bound}
use github.RedMain.Proof.Runs.{last_verified as last_proven}
use github.RedMain.Proof.Newest.{FirstVerified, last_verified-FirstVerified}
use github.CiRange.Lanes.{Lanes, parse_lanes, select}
use github.CiRange.Range.{
  Env, Output, range, verdict, last_verified, base_for, reachable_base, changed_files, written_base,
  count_of_files, selected_range, default_branch, workflow_file, range_main, main, or_empty,
}

-- The declared lanes.
abbrev pub Declared : Env → Lanes → Type 0
Declared env lanes = (text : String) × (env.lanes ≡ some text) × (parse_lanes text ≡ some lanes)

module _ (api : String → Option Value) (urlencode : String → String → String → String)
    (parents : List String) where
  last_verified-Proven :
      (repo workflow branch : String)
      → is_blank (last_verified api urlencode parents repo workflow branch) ≡ false
      → FirstVerified api urlencode repo branch workflow "verified" parents
          (last_verified api urlencode parents repo workflow branch)
  unfolding last_verified
  last_verified-Proven repo workflow branch h =
      by_result (last_proven api urlencode repo branch workflow "verified" parents) refl h
    where
      by_result :
          (o : Option String)
          → last_proven api urlencode repo branch workflow "verified" parents ≡ o
          → is_blank (or_empty o) ≡ false
          → FirstVerified api urlencode repo branch workflow "verified" parents (or_empty o)
      by_result none f g = cc
      by_result (some sha) f g =
          last_verified-FirstVerified api urlencode repo branch workflow "verified" parents sha f

-- The parts of a range.
abbrev base_of : Output → Value
base_of (verdict v) = v
base_of (range base run count) = base

abbrev run_of : Output → Dict String Bool
run_of (verdict v) = []
run_of (range base run count) = run

abbrev count_of : Output → Option ℕ
count_of (verdict v) = none
count_of (range base run count) = count

-- Git has a commit, before or after it was asked to fetch it.
abbrev pub IsHere : (Bool → String → Bool) → String → Type 0
IsHere here sha = (here false sha ≡ true) ⊎ (here true sha ≡ true)

reachable_base-cases :
    (here : Bool → String → Bool) (sha : String) (reached : Option String)
    → reachable_base here (str sha) ≡ some reached
    → ((reached ≡ none) × (written_base (str sha) reached ≡ str ""))
      ⊎ ((reached ≡ some sha) × (is_blank sha ≡ false) × IsHere here sha)
reachable_base-cases here (String.[]) reached e =
    let none_reached : none ≡ reached = some-injective _ _ e in
    inl (sym none_reached, subst (λ r. written_base (str "") r ≡ str "") none_reached refl)
reachable_base-cases here (String.◌∷◌ c s) reached e =
    elim (Bool-cases (here false (String.◌∷◌ c s))) [
      | inl first ↦ inr (sym (found (rw first refl)), refl, inl first)
      | inr away ↦ elim (Bool-cases (here true (String.◌∷◌ c s))) [
        | inl fetched ↦ inr (sym (found (rw (away, fetched) refl)), refl, inr fetched)
        | inr gone ↦
            let lost : none ≡ reached = some-injective _ _ (rw (away, gone) at e) in
            inl (sym lost, subst (λ r. written_base (str (String.◌∷◌ c s)) r ≡ str "") lost refl)
      ]
    ]
  where
    found :
        (here false (String.◌∷◌ c s) || here true (String.◌∷◌ c s)) ≡ true
        → some (String.◌∷◌ c s) ≡ reached
    found f = some-injective _ _ (rw f at e)

module _ (api : String → Option Value) (urlencode : String → String → String → String)
    (parents : List String) (here : Bool → String → Bool) (diff : String → Option String)
    (matches : String → String → Bool) where
  -- A base that was proven on the default branch of the payload: the newest ancestor with a success,
  -- none of the newer ones having one.
  abbrev pub ProvenBase : Env → String → Type 0
  ProvenBase env sha =
      (is_blank sha ≡ false)
      × (branch : String) × (default_branch env.payload ≡ some branch)
      × FirstVerified api urlencode env.repo branch (workflow_file env) "verified" parents sha

  base_for-push :
      (payload : Fields) (repo workflow branch : String)
      → base_for api urlencode parents here diff matches "push" payload repo workflow branch
        ≡ some (str (last_verified api urlencode parents repo workflow branch))
  unfolding base_for
  base_for-push payload repo workflow branch = refl

  abbrev pub Covers : Env → Lanes → Value → Dict String Bool → Option ℕ → Type 0
  Covers env lanes base run count =
      ((base ≡ str "") × (run ≡ select matches lanes none env.only) × (count ≡ none))
      ⊎ ((sha : String) × (base ≡ str sha)
          × IsHere here sha
          × ProvenBase env sha
          × (text : String) × (diff sha ≡ some text)
          × (run ≡ select matches lanes (some (split_lines text)) env.only)
          × (count ≡ some (length (split_lines text))))

  selected_range-Covers :
      (env : Env) (lanes : Lanes) (sha : String) (base : Value) (run : Dict String Bool)
      (count : Option ℕ)
      → (is_blank sha ≡ false → ProvenBase env sha)
      → selected_range api urlencode parents here diff matches env lanes (str sha)
        ≡ some (range base run count)
      → Covers env lanes base run count
  unfolding selected_range
  selected_range-Covers env lanes sha base run count proven e =
      let (reached, f, g) = bound (reachable_base here (str sha)) _ _ e in
      elim (reachable_base-cases here sha reached f) [
        | inl (lost, written) ↦ unreached reached lost written g
        | inr (found, set, held) ↦ reached_at held (proven set) (rw found at g)
      ]
    where
      then_range : Option String → Option Output
      then_range reached = and_then (changed_files diff reached) (λ changed. some (
          range (written_base (str sha) reached) (select matches lanes changed env.only)
            (count_of_files changed)))

      unreached :
          (reached : Option String)
          → reached ≡ none
          → written_base (str sha) reached ≡ str ""
          → then_range reached ≡ some (range base run count)
          → Covers env lanes base run count
      unreached none lost written g =
          let same = some-injective _ _ g in
          inl (sym (ap base_of same) ∙ written, sym (ap run_of same), sym (ap count_of same))
      unreached (some other) lost written g = cc

      reached_at :
          IsHere here sha
          → ProvenBase env sha
          → then_range (some sha) ≡ some (range base run count)
          → Covers env lanes base run count
      reached_at held given g =
          let (changed, h, k) = bound (changed_files diff (some sha)) _ _ g in
          let (text, l, m) = bound (diff sha) _ _ h in
          let same = some-injective _ _ k in
          let files = some-injective _ _ m in
          inr (
            sha,
            sym (ap base_of same),
            held,
            given,
            text,
            l,
            sym (ap run_of same) ∙ ap (λ x. select matches lanes x env.only) (sym files),
            sym (ap count_of same) ∙ ap count_of_files (sym files),
          )

  -- The range of a push is everything, and written as no base with every lane that the declaration
  -- and `only` ask for, or it starts at a base that git has, before or after a fetch, and that was
  -- proven on the default branch of the payload: the newest ancestor whose verdict was read as a
  -- success, where every newer one was read and is none. Its lanes are those that the files changed
  -- since that base select.
  pub main-Covers :
      (env : Env) (base : Value) (run : Dict String Bool) (count : Option ℕ)
      → env.event ≡ "push"
      → env.mode ≡ "range"
      → main api urlencode parents here diff matches env ≡ some (range base run count)
      → (lanes : Lanes) × Declared env lanes × Covers env lanes base run count
  unfolding main range_main
  main-Covers env base run count pushed ranged e =
      let same : range_main api urlencode parents here diff matches env
          ≡ some (range base run count) =
        rw (ap (λ m. m == "range") ranged) at e in
      let (text, f, g) = bound env.lanes _ _ same in
      let (lanes, h, k) = bound (parse_lanes text) _ _ g in
      let (branch, l, m) = bound (default_branch env.payload) _ _ k in
      let (given, n, o) =
        bound
          (base_for api urlencode parents here diff matches env.event env.payload env.repo
            (workflow_file env) branch)
          _ _ m in
      let sha = last_verified api urlencode parents env.repo (workflow_file env) branch in
      let from_push : given ≡ str sha = some-injective _ _ (
        sym n
        ∙ ap
            (λ event.
              base_for api urlencode parents here diff matches event env.payload env.repo
                (workflow_file env) branch)
            pushed
        ∙ base_for-push env.payload env.repo (workflow_file env) branch) in
      (
        lanes,
        (text, f, h),
        selected_range-Covers env lanes sha base run count
            (λ set. (
              set,
              branch,
              l,
              last_verified-Proven api urlencode parents env.repo (workflow_file env) branch set,
            ))
            (subst
              (λ v.
                selected_range api urlencode parents here diff matches env lanes v
                ≡ some (range base run count))
              from_push o),
      )
