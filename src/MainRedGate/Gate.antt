-- ===== src/MainRedGate/Gate.antt =====
-- The decision of the gate on a merge group, its first reading included.
use github.Base.{ℕ, ◌<◌, ◌≡◌, ◌≢◌, ◌⊎◌, refl, ap, sym, ◌∙◌, inl, inr, String, Option, none, some}
use github.Base.{List, arith, Bool-cases, eq_iff, ◌==◌, nat_eq, string_eq}
use mathlib.Core.Option.{some-injective}
use github.MainRedGate.Trunk.{
  PushRun, Trunk, red, green, unknown, trunk_state, newer_unfinished_run,
}
use github.MainRedGate.WayBack.{Pull, is_way_back, decide}
use github.MainRedGate.Outcome.{Outcome, returned, expired, incomplete, unreadable}
use github.MainRedGate.Hold.{Reading, Settings, pull_of}
use github.MainRedGate.Hold.{first_running, first_pull, first_red, first_state, first_runs, main}
use github.MainRedGate.Refusal.{
  Ordinary, Refused, no_hold, no_history, way_back_open, held, Fair, incomplete_history-Fair,
  finish-Fair, list_open-Fair, hold_loop-Fair,
}

pull_of-returned :
    (number : Option ℕ) (o : Outcome Pull) (pull : Pull)
    → pull_of number o ≡ some pull
    → o ≡ returned pull
pull_of-returned none o pull h = cc
pull_of-returned (some n) expired pull h = cc
pull_of-returned (some n) incomplete pull h = cc
pull_of-returned (some n) unreadable pull h = cc
pull_of-returned (some n) (returned p) pull h = ap returned (some-injective p pull h)

module _ (s : Settings) (schedule : ℕ → Reading) where
  abbrev IsFair : Option ℕ → Type 0
  IsFair = Fair s schedule

  first_running-Fair :
      (rest : Option ℕ) (o : Ordinary s (schedule 0)) (running : Option PushRun)
      → newer_unfinished_run o.runs s.branch (some o.place) ≡ running
      → (Refused s schedule → IsFair rest)
      → IsFair (first_running s (schedule 0) rest o.place o.run o.pull running)
  unfolding first_running
  first_running-Fair rest o none e f =
      list_open-Fair s schedule 0 o.place o.run o.pull (schedule 0).pulls refl (λ _. o)
  first_running-Fair rest o (some running) e f = elim (Bool-cases (s.mode == "enforce")) [
    | inl g ↦
        rw g (
          f (
            held ((eq_iff s.mode "enforce").0 g) o (λ h. absurd (none_is_not running (sym e ∙ h)))))
    | inr g ↦ rw g (
        finish-Fair s schedule o.place o.run o.pull _
          (λ _ enforce. absurd (ground (arith, (eq_iff s.mode "enforce").1 enforce))))
  ]
    where
      none_is_not : (r : PushRun) → some r ≡ none → ⊥
      none_is_not r h = cc

  first_pull-Fair :
      (rest : Option ℕ) (runs : List PushRun) (place : ℕ) (run : PushRun) (pull : Pull)
      (why : Option String)
      → (schedule 0).runs ≡ returned runs
      → trunk_state runs s.branch ≡ red place run
      → (schedule 0).pull ≡ returned pull
      → is_way_back pull s.fix_label ≡ why
      → (Refused s schedule → IsFair rest)
      → IsFair (first_pull s (schedule 0) rest runs place run pull why)
  unfolding first_pull
  first_pull-Fair rest runs place run pull none e f g h rest_fair =
      first_running-Fair rest
        (record {
          runs = runs;
          place = place;
          run = run;
          pull = pull;
          reads = e;
          is_red = f;
          reads_pull = g;
          no_way_back = h;
        })
        _ refl rest_fair
  first_pull-Fair rest runs place run pull (some why) e f g h rest_fair =
      finish-Fair s schedule place run pull none (λ moves enforce. absurd (moves refl))

  first_red-Fair :
      (rest : Option ℕ) (runs : List PushRun) (place : ℕ) (run : PushRun) (pull : Option Pull)
      → (schedule 0).runs ≡ returned runs
      → trunk_state runs s.branch ≡ red place run
      → pull_of s.number (schedule 0).pull ≡ pull
      → (Refused s schedule → IsFair rest)
      → IsFair (first_red s (schedule 0) rest runs place run pull)
  unfolding first_red decide
  first_red-Fair rest runs place run none e f g rest_fair = inl refl
  first_red-Fair rest runs place run (some pull) e f g rest_fair =
      first_pull-Fair rest runs place run pull _ e f (pull_of-returned s.number _ pull g) refl
        rest_fair

  first_state-Fair :
      (hold fuel : ℕ) (runs : List PushRun) (trunk : Trunk)
      → (schedule 0).runs ≡ returned runs
      → trunk_state runs s.branch ≡ trunk
      → hold < fuel
      → IsFair (first_state s schedule hold fuel runs trunk)
  unfolding first_state
  first_state-Fair hold fuel runs (green place run) e f h = inl refl
  first_state-Fair hold fuel runs unknown e f h = inl refl
  first_state-Fair hold fuel runs (red place run) e f h =
      first_red-Fair _ runs place run _ e f refl
        (λ refused. hold_loop-Fair s schedule hold run.id fuel 1 0 refused (omega arith))

  first_runs-Fair :
      (hold fuel : ℕ) (reading : Outcome (List PushRun))
      → (schedule 0).runs ≡ reading
      → hold < fuel
      → IsFair (first_runs s schedule hold fuel reading)
  unfolding first_runs
  first_runs-Fair hold fuel (returned runs) e h = first_state-Fair hold fuel runs _ e refl h
  first_runs-Fair hold fuel incomplete e h = incomplete_history-Fair s schedule 0 e
  first_runs-Fair hold fuel expired e h = inl refl
  first_runs-Fair hold fuel unreadable e h = inl refl

  abbrev pub hold_or_zero : Option ℕ → ℕ
  hold_or_zero none = 0
  hold_or_zero (some hold) = hold

  -- With more fuel than the hold has seconds, the gate decides, whatever its readings: it exits with
  -- 0, or with 1 for one of the reasons to refuse. These are an invalid hold; in enforce mode, an
  -- incomplete history with no way back; and in enforce mode, a red trunk and a pull request that is
  -- no way back, where a way back is open or a newer run was unfinished at the first reading.
  pub main-Fair :
      (fuel : ℕ)
      → hold_or_zero s.hold < fuel
      → (main s schedule fuel ≡ some 0) ⊎ ((main s schedule fuel ≡ some 1) × Refused s schedule)
  unfolding main
  main-Fair fuel h = by_hold s.hold refl h
    where
      by_hold :
          (hold : Option ℕ)
          → s.hold ≡ hold
          → hold_or_zero hold < fuel
          → IsFair (elim hold [
            | none ↦ some 1
            | some n ↦ first_runs s schedule n fuel (schedule 0).runs
          ])
      by_hold none e k = inr (refl, no_hold e)
      by_hold (some n) e k = first_runs-Fair n fuel (schedule 0).runs refl k

  -- Outside enforce mode, with a valid hold, the gate admits every merge group.
  pub main-observe :
      (fuel hold : ℕ)
      → hold < fuel
      → s.hold ≡ some hold
      → s.mode ≢ "enforce"
      → main s schedule fuel ≡ some 0
  main-observe fuel hold f e not_enforce = elim (main-Fair fuel (rw e f)) [
    | inl h ↦ h
    | inr (h, refused) ↦ absurd (never refused)
  ]
    where
      none_is_not : ◌≡◌ {A = Option ℕ} none (some hold) → ⊥
      none_is_not g = cc

      never : Refused s schedule → ⊥
      never (no_hold g) = absurd (none_is_not (sym g ∙ e))
      never (no_history i enforce _ _) = not_enforce enforce
      never (way_back_open i enforce _ _ _ _) = not_enforce enforce
      never (held enforce _ _) = not_enforce enforce
