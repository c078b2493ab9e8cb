-- ===== src/MainRedGate/Decided.antt =====
-- What decides the state of the trunk, and which run is newer than that.
use github.Base.{
  ℕ, zero, suc, ◌+◌, ◌≡◌, refl, ap, inl, inr, String, Bool, true, false, not, ◌&&◌, ◌||◌, some,
}
use github.Base.{
  List, [], ◌∷◌, ◌++◌, arith, length, take, first, All, Bool-cases, ◌==◌, string_eq, option_eq,
  nat_eq, option_beq_iff, eqb, if◌then◌else◌,
}
use github.MainRedGate.Trunk.{
  PushRun, failed, is_in, is_push, is_completed, Trunk, red, green, unknown,
}
use github.MainRedGate.Trunk.{trunk_from, trunk_state, newer_from, newer_unfinished_run}

-- A completed push run on the trunk with a verdict.
abbrev pub Fails : String → PushRun → Type 0
Fails branch run =
    (is_push branch run ≡ true) × (is_completed run ≡ true) × (is_in run.conclusion failed ≡ true)

abbrev pub Succeeds : String → PushRun → Type 0
Succeeds branch run =
    (is_push branch run ≡ true) × (is_completed run ≡ true) × (run.conclusion ≡ some "success")

abbrev pub IsSilent : String → PushRun → Type 0
IsSilent branch run = ¬ Fails branch run × ¬ Succeeds branch run

-- A run at a place, counted from `start`, with the runs before it silent.
abbrev pub Newest : String → List PushRun → ℕ → ℕ → PushRun → Type 0
Newest branch runs start place run =
    (before : List PushRun) × (after : List PushRun) × (runs ≡ before ++ run ∷ after)
    × (start + length before ≡ place)
    × All (IsSilent branch) before

abbrev pub Decided : String → List PushRun → ℕ → Trunk → Type 0
Decided branch runs start unknown = All (IsSilent branch) runs
Decided branch runs start (red place run) = Newest branch runs start place run × Fails branch run
Decided branch runs start (green place run) =
    Newest branch runs start place run × Succeeds branch run

Newest-skip :
    (branch : String) (r : PushRun) (runs : List PushRun) (start place : ℕ) (run : PushRun)
    → IsSilent branch r
    → Newest branch runs (suc start) place run
    → Newest branch (r ∷ runs) start place run
Newest-skip branch r runs start place run h (before, after, e, n, silent) =
    (r ∷ before, after, ap (◌∷◌ r) e, omega arith, (h, silent))

Decided-skip :
    (branch : String) (r : PushRun) (runs : List PushRun) (start : ℕ) (trunk : Trunk)
    → IsSilent branch r
    → Decided branch runs (suc start) trunk
    → Decided branch (r ∷ runs) start trunk
Decided-skip branch r runs start (red place run) h (newest, f) =
    (Newest-skip branch r runs start place run h newest, f)
Decided-skip branch r runs start (green place run) h (newest, f) =
    (Newest-skip branch r runs start place run h newest, f)
Decided-skip branch r runs start unknown h d = (h, d)

Newest-here :
    (branch : String) (r : PushRun) (runs : List PushRun) (start : ℕ)
    → Newest branch (r ∷ runs) start start r
Newest-here branch r runs start = ([], runs, refl, omega arith, tt)

trunk_from-Decided :
    (start : ℕ) (runs : List PushRun) (branch : String)
    → Decided branch runs start (trunk_from start runs branch)
unfolding trunk_from
trunk_from-Decided start [] branch = tt
trunk_from-Decided start (r ∷ runs) branch =
    let rest = trunk_from-Decided (suc start) runs branch in
    let skip : IsSilent branch r
        → Decided branch (r ∷ runs) start (trunk_from (suc start) runs branch) =
      λ h. Decided-skip branch r runs start _ h rest in
    let success = option_beq_iff r.conclusion (some "success") in
    elim (Bool-cases (not (is_push branch r) || not (is_completed r))) [
      | inl e ↦ rw e (skip (λ f. absurd (ground arith), λ f. absurd (ground arith)))
      | inr e ↦ elim (Bool-cases (is_in r.conclusion failed)) [
        | inl f ↦ rw (e, f) (Newest-here branch r runs start, (ground arith, ground arith, f))
        | inr f ↦ elim (Bool-cases (r.conclusion == some "success")) [
          | inl g ↦
              rw (e, f, g)
                (Newest-here branch r runs start, (ground arith, ground arith, success.0 g))
          | inr g ↦
              rw (e, f, g)
                (skip (λ k. absurd (ground arith), λ k. absurd (ground (arith, success.1 k.2))))
        ]
      ]
    ]

-- The newest completed push run on the trunk that failed or succeeded decides: a failure is red, a
-- success green, and every run before it is neither. Where there is no such run, the state is
-- unknown.
pub trunk_state-Decided :
    (runs : List PushRun) (branch : String) → Decided branch runs 0 (trunk_state runs branch)
unfolding trunk_state
trunk_state-Decided runs branch = trunk_from-Decided 0 runs branch

abbrev pub is_unfinished : String → PushRun → Bool
is_unfinished branch run = is_push branch run && not (is_completed run)

newer_from-first :
    (start n : ℕ) (runs : List PushRun) (branch : String)
    → newer_from start runs branch (some (start + n)) ≡ first (is_unfinished branch) (take n runs)
unfolding newer_from
newer_from-first start zero [] branch = refl
newer_from-first start (suc n) [] branch = refl
newer_from-first start zero (r ∷ runs) branch =
    let here : eqb (start + 0) start ≡ true = ground arith in rw here refl
newer_from-first start (suc n) (r ∷ runs) branch =
    let there : eqb (start + suc n) start ≡ false = ground arith in
    let next : start + suc n ≡ suc start + n = omega arith in
    rw (there, next)
      (ap (λ rest. if is_unfinished branch r then some r else rest)
        (newer_from-first (suc start) n runs branch))

-- With a run to be newer than, it is the first unfinished push run on the trunk before that run.
pub newer_unfinished_run-first :
    (runs : List PushRun) (branch : String) (place : ℕ)
    → newer_unfinished_run runs branch (some place) ≡ first (is_unfinished branch) (take place runs)
unfolding newer_unfinished_run
newer_unfinished_run-first runs branch place =
    let same : 0 + place ≡ place = omega arith in rw same at (newer_from-first 0 place runs branch)
