-- ===== src/RedMain/Gate/Declared.antt =====
-- When the handler may act, and what it is told.
use github.Base.{
  String, ◌≡◌, ◌↔◌, ◌⊎◌, [], ◌∷◌, contains-Memᴰ, Memᴰ-contains, refl, ap, sym, ◌∙◌, inl, inr, Bool,
  true, false, Option, none, some,
}
use github.Base.{contains, arith, Bool-cases, string_eq}
use github.Json.{Value, Fields, get, str, is_text, is_truthy}
use mathlib.Core.List.{Memᴰ}
use mathlib.Core.Option.{some-injective}
use mathlib.Core.Path.{subst}
use github.RedMain.Proof.Proven.{differ}
use github.RedMain.Gate.{
  default_owner, is_owner, is_window, owner_of, paths_of, hold_of, modes, on_red_of, read_ci,
  in_mode, act, declared, gate,
}
use github.RedMain.Gate.Taken.{
  IsWellFormed, IsTaken, IsFrom, Takes-if_text, Takes-paths_with, IsWellFormed-of_from, off-IsFrom,
  error-IsFrom,
}

module _ (tomllib : Option (String → Option Fields)) (repr : Value → String) where
  act-IsTaken : (ci : Fields) (mode : String) → IsTaken ci (act tomllib repr ci mode)
  unfolding owner_of paths_of hold_of
  act-IsTaken ci mode = (
    Takes-if_text is_owner (get ci "red_main_owner") default_owner,
    Takes-paths_with (get ci "migration_paths"),
    Takes-if_text is_window (get ci "revert_hold_utc") "",
  )

  in_mode-IsFrom : (ci : Fields) (v : Value) → IsFrom (some ci) (in_mode tomllib repr ci v)
  in_mode-IsFrom ci (str mode) = elim (Bool-cases (contains modes mode)) [
    | inl f ↦ rw f (inl (ci, refl, refl, act-IsTaken ci mode))
    | inr f ↦ rw f (error-IsFrom (some ci) "")
  ]
  in_mode-IsFrom ci (Value.null) = error-IsFrom (some ci) ""
  in_mode-IsFrom ci (Value.bool b) = error-IsFrom (some ci) ""
  in_mode-IsFrom ci (Value.int n) = error-IsFrom (some ci) ""
  in_mode-IsFrom ci (Value.real n t) = error-IsFrom (some ci) ""
  in_mode-IsFrom ci (Value.arr vs) = error-IsFrom (some ci) ""
  in_mode-IsFrom ci (Value.obj fs) = error-IsFrom (some ci) ""

  declared-IsFrom : (ci : Option Fields) → IsFrom ci (declared tomllib repr ci)
  unfolding declared
  declared-IsFrom none = off-IsFrom none ""
  declared-IsFrom (some ci) = elim (Bool-cases (is_text "optimistic" (get ci "merge"))) [
    | inl f ↦ rw f (in_mode-IsFrom ci (on_red_of ci))
    | inr f ↦ rw f (off-IsFrom (some ci) "")
  ]

  -- The table of a repository's manifest, or none.
  abbrev pub table_of : Bool → Option String → Option Fields
  table_of false raw = none
  table_of true raw = read_ci tomllib repr raw

  gate-IsFrom :
      (present : Bool) (raw : Option String)
      → IsFrom (table_of present raw) (gate tomllib repr present raw)
  unfolding gate
  gate-IsFrom false raw = off-IsFrom none ""
  gate-IsFrom true raw = declared-IsFrom (read_ci tomllib repr raw)

  -- Whatever the manifest holds, the answer's owner is an owner label, its paths are the default
  -- globs or these with more globs behind them, and its hold is empty or a window of the day. An
  -- answer to act takes each from the table that was read where it is a text of that form, the globs
  -- added to the default ones, and has the default where it is not; any other answer has the
  -- defaults.
  pub gate-IsWellFormed :
      (present : Bool) (raw : Option String)
      → IsWellFormed (gate tomllib repr present raw)
        × IsFrom (table_of present raw) (gate tomllib repr present raw)
  gate-IsWellFormed present raw =
      let from = gate-IsFrom present raw in
      (IsWellFormed-of_from (table_of present raw) (gate tomllib repr present raw) from, from)

  -- A table that opts in: on_red is one of three texts, or counts as absent, being absent, null,
  -- false, 0 or empty.
  abbrev pub OptsIn : Fields → Type 0
  OptsIn ci =
      (is_text "optimistic" (get ci "merge") ≡ true)
      × ((is_truthy (get ci "on_red") ≡ false)
          ⊎ ((mode : String) × (get ci "on_red" ≡ str mode)
              × Memᴰ mode ("notify" ∷ "revert" ∷ "revert_pr_unarmed" ∷ [])))

  -- A mode that is read from a table.
  abbrev InMode : Fields → Type 0
  InMode ci = (mode : String) × (on_red_of ci ≡ str mode) × (contains modes mode ≡ true)

  on_red_of-InMode :
      (ci : Fields)
      → InMode ci ↔ (
          (is_truthy (get ci "on_red") ≡ false)
          ⊎ ((mode : String) × (get ci "on_red" ≡ str mode) × Memᴰ mode modes))
  on_red_of-InMode ci = elim (Bool-cases (is_truthy (get ci "on_red"))) [
    | inl set ↦ rw set (
      λ (mode, e, f). inr (mode, e, contains-Memᴰ modes f),
      λ h. elim h [ inl f ↦ absurd (ground arith) | inr (mode, e, m) ↦ (mode, e, Memᴰ-contains m) ],
    )
    | inr unset ↦ rw unset (λ h. inl refl, λ h. ("revert", refl, refl))
  ]

  in_mode-act :
      (ci : Fields) (v : Value)
      → ((in_mode tomllib repr ci v).verdict ≡ "act")
        ↔ ((mode : String) × (v ≡ str mode) × (contains modes mode ≡ true))
  in_mode-act ci (str mode) = elim (Bool-cases (contains modes mode)) [
    | inl f ↦ rw f (λ e. (mode, refl, f), λ x. refl)
    | inr f ↦ rw f (
      λ e. absurd (differ "error" "act" refl e),
      λ (other, e, g). absurd (true_false (sym (ap (contains modes) (text_same e ∙ refl) ∙ g) ∙ f)),
    )
  ]
    where
      text_same : {s t : String} → str s ≡ str t → s ≡ t
      text_same h = cc

      true_false : true ≡ false → ⊥
      true_false h = cc
  in_mode-act ci (Value.null) = (λ e. absurd (differ "error" "act" refl e), λ (mode, e, f). cc)
  in_mode-act ci (Value.bool b) = (λ e. absurd (differ "error" "act" refl e), λ (mode, e, f). cc)
  in_mode-act ci (Value.int n) = (λ e. absurd (differ "error" "act" refl e), λ (mode, e, f). cc)
  in_mode-act ci (Value.real n t) = (λ e. absurd (differ "error" "act" refl e), λ (mode, e, f). cc)
  in_mode-act ci (Value.arr vs) = (λ e. absurd (differ "error" "act" refl e), λ (mode, e, f). cc)
  in_mode-act ci (Value.obj fs) = (λ e. absurd (differ "error" "act" refl e), λ (mode, e, f). cc)

  declared-act :
      (ci : Option Fields)
      → ((declared tomllib repr ci).verdict ≡ "act")
        ↔ ((table : Fields) × (ci ≡ some table) × OptsIn table)
  unfolding declared
  declared-act none = (λ e. absurd (differ "off" "act" refl e), λ (table, e, f). cc)
  declared-act (some ci) = elim (Bool-cases (is_text "optimistic" (get ci "merge"))) [
    | inl f ↦ rw f (
      λ e. (ci, refl, (f, (on_red_of-InMode ci).0 ((in_mode-act ci (on_red_of ci)).0 e))),
      λ (table, e, h).
          let g = subst OptsIn (sym (some-injective _ _ e)) h in
          (in_mode-act ci (on_red_of ci)).1 ((on_red_of-InMode ci).1 g.1),
    )
    | inr f ↦ rw f (
      λ e. absurd (differ "off" "act" refl e),
      λ (table, e, h).
          let g = (subst OptsIn (sym (some-injective _ _ e)) h).0 in absurd (ground arith),
    )
  ]

  -- The handler may act exactly where the repository has a manifest whose table [ci] was read, sets
  -- merge to optimistic, and has an on_red of notify, revert or revert_pr_unarmed, or one that
  -- counts as absent: it is absent, or null, false, 0 or empty. A manifest that is absent or
  -- unreadable, or has any other merge or on_red, stops it.
  pub gate-act_iff :
      (present : Bool) (raw : Option String)
      → ((gate tomllib repr present raw).verdict ≡ "act") ↔ (
          (present ≡ true)
          × (table : Fields) × (read_ci tomllib repr raw ≡ some table)
          × OptsIn table)
  unfolding gate
  gate-act_iff false raw = (λ e. absurd (differ "off" "act" refl e), λ (e, table, f, g). cc)
  gate-act_iff true raw =
      let (to, from) = declared-act (read_ci tomllib repr raw) in
      (λ e. let x = to e in (refl, x.0, x.1, x.2), λ (e, table, f, h). from (table, f, h))
