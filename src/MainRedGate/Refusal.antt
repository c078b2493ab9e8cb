-- ===== src/MainRedGate/Refusal.antt =====
-- When the gate refuses a merge group, and that it always decides.
use github.Base.{
  ℕ, zero, suc, ◌+◌, ◌-◌, ◌<◌, ◌≡◌, ◌≢◌, ◌⊎◌, refl, ap, sym, ◌∙◌, inl, inr, String, Option, none,
  some,
}
use github.Base.{List, arith, leb, min, Bool-cases, eq_iff, ◌==◌, nat_eq, string_eq}
use mathlib.Core.Option.{some-injective}
use github.MainRedGate.Trunk.{
  PushRun, Trunk, red, green, unknown, trunk_state, newer_unfinished_run,
}
use github.MainRedGate.WayBack.{Pull, is_way_back, open_way_back, decide}
use github.MainRedGate.Admits.{decide-refuses_iff}
use github.MainRedGate.Outcome.{Outcome, returned, expired, incomplete, unreadable}
use github.MainRedGate.Hold.{
  Reading, Settings, pull_of, may_recover, recovery, incomplete_history, finish, list_open,
}
use github.MainRedGate.Hold.{
  after_running, after_pull, after_red, after_state, after_runs, hold_loop,
}

-- What a reading finds: a red trunk and a pull request that is no way back.
pub record Ordinary (s : Settings) (r : Reading) : Type 0 where
  pub runs : List PushRun
  pub place : ℕ
  pub run : PushRun
  pub pull : Pull
  pub reads : r.runs ≡ returned runs
  pub is_red : trunk_state runs s.branch ≡ red place run
  pub reads_pull : r.pull ≡ returned pull
  pub no_way_back : is_way_back pull s.fix_label ≡ none

-- Why a merge group is refused.
pub data Refused (s : Settings) (schedule : ℕ → Reading) : Type 0 where
  -- HOLD_MINUTES is invalid.
  no_hold : s.hold ≡ none → Refused s schedule
  -- The history has no conclusive verdict within its limit, and the pull request is not known to be
  -- a way back.
  no_history :
      (i : ℕ)
      → s.mode ≡ "enforce"
      → (schedule i).runs ≡ incomplete
      → ((pull : Pull)
          → pull_of s.number (schedule i).pull ≡ some pull
          → is_way_back pull s.fix_label ≡ none)
      → Refused s schedule
  -- The trunk is red and a pull request that is a way back is open.
  way_back_open :
      (i : ℕ)
      → s.mode ≡ "enforce"
      → Ordinary s (schedule i)
      → (pulls : List Pull) → (schedule i).pulls ≡ returned pulls
      → open_way_back pulls s.fix_label ≢ none
      → Refused s schedule
  -- A newer run was unfinished at first, and the hold passed or ended with another red run.
  held :
      s.mode ≡ "enforce"
      → (o : Ordinary s (schedule 0)) → newer_unfinished_run o.runs s.branch (some o.place) ≢ none
      → Refused s schedule

recovery-cases :
    (fix_label : String) (pull : Option Pull)
    → (recovery fix_label pull ≡ 0)
      ⊎ ((recovery fix_label pull ≡ 1)
          × ((p : Pull) → pull ≡ some p → is_way_back p fix_label ≡ none))
recovery-cases fix_label none = inr (refl, λ p e. cc)
recovery-cases fix_label (some pull) = elim (by_why (is_way_back pull fix_label)) [
  | inl e ↦ inl (ap may_recover e.1)
  | inr e ↦ inr (
    ap may_recover e,
    λ p f. ap (λ q. is_way_back q fix_label) (sym (some-injective pull p f)) ∙ e,
  )
]
  where
    by_why : (why : Option String) → ((w : String) × (why ≡ some w)) ⊎ (why ≡ none)
    by_why none = inr refl
    by_why (some w) = inl (w, refl)

module _ (s : Settings) (schedule : ℕ → Reading) where
  -- An exit status of 0, or of 1 with its reason.
  abbrev pub Fair : Option ℕ → Type 0
  Fair o = (o ≡ some 0) ⊎ ((o ≡ some 1) × Refused s schedule)

  pub incomplete_history-Fair :
      (i : ℕ)
      → (schedule i).runs ≡ incomplete
      → Fair (some (incomplete_history s (schedule i).pull))
  unfolding incomplete_history
  incomplete_history-Fair i e = elim (Bool-cases (s.mode == "enforce")) [
    | inr f ↦ inl (rw f refl)
    | inl f ↦ elim (recovery-cases s.fix_label (pull_of s.number (schedule i).pull)) [
      | inl g ↦ rw (f, g) (inl refl)
      | inr (g, none_found) ↦
          rw (f, g) (inr (refl, no_history i ((eq_iff s.mode "enforce").0 f) e none_found))
    ]
  ]

  pub finish-Fair :
      (place : ℕ) (run : PushRun) (pull : Pull) (motion : Option String)
      → (motion ≢ none → s.mode ≡ "enforce" → Refused s schedule)
      → Fair (finish s place run pull motion)
  unfolding finish
  finish-Fair place run pull motion refuse =
      elim (Bool-cases (decide (red place run) (some pull) s.mode s.fix_label motion).0) [
        | inl e ↦ inl (rw e refl)
        | inr e ↦
            let why =
              (decide-refuses_iff (red place run) (some pull) s.mode s.fix_label motion).0 e in
            inr (rw e refl, refuse why.6 why.7)
      ]

  pub list_open-Fair :
      (i : ℕ) (place : ℕ) (run : PushRun) (pull : Pull) (pulls : Outcome (List Pull))
      → (schedule i).pulls ≡ pulls
      → (s.mode ≡ "enforce" → Ordinary s (schedule i))
      → Fair (list_open s place run pull pulls)
  unfolding list_open
  list_open-Fair i place run pull (returned pulls) e o =
      finish-Fair place run pull (open_way_back pulls s.fix_label)
        (λ moves enforce. way_back_open i enforce (o enforce) pulls e moves)
  list_open-Fair i place run pull expired e o = inl refl
  list_open-Fair i place run pull incomplete e o = inl refl
  list_open-Fair i place run pull unreadable e o = inl refl

  after_running-Fair :
      (i : ℕ) (rest : Option ℕ) (place : ℕ) (run : PushRun) (pull : Pull) (running : Option PushRun)
      → Ordinary s (schedule i)
      → Fair rest
      → Fair (after_running s (schedule i) rest place run pull running)
  unfolding after_running
  after_running-Fair i rest place run pull (some running) o f = f
  after_running-Fair i rest place run pull none o f =
      list_open-Fair i place run pull (schedule i).pulls refl (λ _. o)

  after_red-Fair :
      (initial i : ℕ) (rest : Option ℕ) (runs : List PushRun) (place : ℕ) (run : PushRun)
      (pull : Outcome Pull)
      → (schedule i).runs ≡ returned runs
      → trunk_state runs s.branch ≡ red place run
      → (schedule i).pull ≡ pull
      → Refused s schedule
      → Fair rest
      → Fair (after_red s initial (schedule i) rest runs place run pull)
  unfolding after_red
  after_red-Fair initial i rest runs place run expired e is_red f refused rest_fair =
      inr (refl, refused)
  after_red-Fair initial i rest runs place run incomplete e is_red f refused rest_fair = inl refl
  after_red-Fair initial i rest runs place run unreadable e is_red f refused rest_fair = inl refl
  after_red-Fair initial i rest runs place run (returned pull) e is_red f refused rest_fair =
      by_way (is_way_back pull s.fix_label) refl
    where
      by_way :
          (why : Option String)
          → is_way_back pull s.fix_label ≡ why
          → Fair (after_pull s initial (schedule i) rest runs place run pull why)
      by_way (some why) g = inl refl
      by_way none g = elim (Bool-cases (run.id == initial)) [
        | inr other ↦ rw other (inr (refl, refused))
        | inl same ↦ rw same (
            after_running-Fair i rest place run pull _
              (record {
                runs = runs;
                place = place;
                run = run;
                pull = pull;
                reads = e;
                is_red = is_red;
                reads_pull = f;
                no_way_back = g;
              })
              rest_fair)
      ]

  after_state-Fair :
      (initial i : ℕ) (rest : Option ℕ) (runs : List PushRun) (trunk : Trunk)
      → (schedule i).runs ≡ returned runs
      → trunk_state runs s.branch ≡ trunk
      → Refused s schedule
      → Fair rest
      → Fair (after_state s initial (schedule i) rest runs trunk)
  unfolding after_state
  after_state-Fair initial i rest runs (red place run) e f refused rest_fair =
      after_red-Fair initial i rest runs place run (schedule i).pull e f refl refused rest_fair
  after_state-Fair initial i rest runs (green place run) e f refused rest_fair = inl refl
  after_state-Fair initial i rest runs unknown e f refused rest_fair = inl refl

  after_runs-Fair :
      (initial i : ℕ) (rest : Option ℕ) (reading : Outcome (List PushRun))
      → (schedule i).runs ≡ reading
      → Refused s schedule
      → Fair rest
      → Fair (after_runs s initial (schedule i) rest reading)
  unfolding after_runs
  after_runs-Fair initial i rest (returned runs) e refused rest_fair =
      after_state-Fair initial i rest runs _ e refl refused rest_fair
  after_runs-Fair initial i rest expired e refused rest_fair = inr (refl, refused)
  after_runs-Fair initial i rest incomplete e refused rest_fair = incomplete_history-Fair i e
  after_runs-Fair initial i rest unreadable e refused rest_fair = inl refl

  -- Each pass sleeps, so the fuel lasts where it exceeds the seconds that are left.
  pub hold_loop-Fair :
      (deadline initial fuel i now : ℕ)
      → Refused s schedule
      → deadline - now < fuel
      → Fair (hold_loop s schedule deadline initial fuel i now)
  unfolding hold_loop
  hold_loop-Fair deadline initial zero i now refused h = absurd (omega arith)
  hold_loop-Fair deadline initial (suc fuel) i now refused h =
      elim (Bool-cases (leb deadline now)) [
        | inl over ↦ rw over (inr (refl, refused))
        | inr left ↦
            let before : now < deadline = ground arith in
            rw left (
              after_runs-Fair initial i _ (schedule i).runs refl refused (
                hold_loop-Fair deadline initial fuel (suc i)
                  (now + min 60 (deadline - now) + (schedule i).duration) refused (omega arith)))
      ]
