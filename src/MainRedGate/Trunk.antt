-- ===== src/MainRedGate/Trunk.antt =====
-- `trunk_state` and `newer_unfinished_run` of main-red-gate/main_red_gate.py.
use github.Base.{ℕ, suc, String, Bool, false, not, ◌&&◌, ◌||◌, Option, none, some}
use github.Base.{List, [], ◌∷◌, contains, ◌==◌, string_eq, option_eq, nat_eq, if◌then◌else◌}

-- A run of the verifying workflow. `none` is a key that is missing or null.
pub record PushRun : Type 0 where
  pub id : ℕ
  pub event : Option String
  pub head_branch : Option String
  pub head_sha : String
  pub status : Option String
  pub conclusion : Option String
  pub html_url : Option String

abbrev pub failed : List String
failed = "failure" ∷ "timed_out" ∷ "action_required" ∷ "startup_failure" ∷ []

-- `value in words`
abbrev pub is_in : Option String → List String → Bool
is_in none words = false
is_in (some s) words = contains words s

abbrev pub is_push : String → PushRun → Bool
is_push branch run = run.event == some "push" && run.head_branch == some branch

abbrev pub is_completed : PushRun → Bool
is_completed run = run.status == some "completed"

-- The state with the deciding run and its place, which Python's `is` compares.
pub data Trunk : Type 0 where
  red green : ℕ → PushRun → Trunk
  unknown : Trunk

unfoldable pub trunk_from : ℕ → List PushRun → String → Trunk
trunk_from i [] branch = unknown
trunk_from i (run ∷ runs) branch =
    let rest = trunk_from (suc i) runs branch in
    if not (is_push branch run) || not (is_completed run)
    then rest
    else if is_in run.conclusion failed
    then red i run
    else if run.conclusion == some "success"
    then green i run
    else rest

unfoldable pub trunk_state : List PushRun → String → Trunk
unfolding trunk_from
trunk_state runs branch = trunk_from 0 runs branch

unfoldable pub newer_from : ℕ → List PushRun → String → Option ℕ → Option PushRun
newer_from i [] branch deciding = none
newer_from i (run ∷ runs) branch deciding =
    let rest = newer_from (suc i) runs branch deciding in
    if deciding == some i
    then none
    else if is_push branch run && not (is_completed run)
    then some run
    else rest

-- `deciding` is the place of the deciding run.
unfoldable pub newer_unfinished_run : List PushRun → String → Option ℕ → Option PushRun
unfolding newer_from
newer_unfinished_run runs branch deciding = newer_from 0 runs branch deciding
