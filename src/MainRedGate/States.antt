-- ===== src/MainRedGate/States.antt =====
-- The state of the trunk over lists of runs that are cut or joined.
use github.Base.{
  ℕ, suc, ◌+◌, ◌≡◌, refl, ap, sym, ◌∙◌, inl, inr, String, Bool, true, false, Option, none, some,
}
use github.Base.{
  List, [], ◌∷◌, ◌++◌, map, arith, length, select, All, Bool-cases, string_eq, option_eq,
}
use mathlib.Core.List.{map-append}
use github.Base.Text.{is_blank}
use github.MainRedGate.Trunk.{PushRun, is_push, trunk_from}
use github.MainRedGate.History.{Job, Api, project, is_conclusive, is_unknown}
use github.MainRedGate.Reference.{counts, seen_as, verdicts}
use github.MainRedGate.Gathered.{up_to}

-- A run that decides the trunk's state when the runs are push runs on it.
abbrev pub AllPush : String → List PushRun → Type 0
AllPush branch runs = All (λ run. is_push branch run ≡ true) runs

project-push :
    (branch : String) (run : PushRun) (verdict : Option Job)
    → is_push branch (project run verdict) ≡ is_push branch run
unfolding project
project-push branch run none = refl
project-push branch run (some job) = refl

seen_as-push :
    (api : Api) (branch base check : String) (run : PushRun)
    → is_push branch (seen_as api branch base check run) ≡ is_push branch run
seen_as-push api branch base check run = elim (Bool-cases (is_blank check)) [
  | inl e ↦ rw e refl
  | inr e ↦ rw e (project-push branch run _)
]

pub verdicts-AllPush :
    (api : Api) (branch base check : String) (runs : List PushRun)
    → AllPush branch (verdicts api branch base check runs)
verdicts-AllPush api branch base check [] = tt
verdicts-AllPush api branch base check (run ∷ runs) =
    elim (Bool-cases (counts api branch base check run)) [
      | inl e ↦ rw e (
        seen_as-push api branch base check run ∙ ground arith,
        verdicts-AllPush api branch base check runs,
      )
      | inr e ↦ rw e (verdicts-AllPush api branch base check runs)
    ]

trunk_from-conclusive :
    (i : ℕ) (runs rest : List PushRun) (run : PushRun) (branch : String)
    → is_push branch run ≡ true
    → is_conclusive run ≡ true
    → trunk_from i (run ∷ runs) branch ≡ trunk_from i (run ∷ rest) branch
unfolding trunk_from
trunk_from-conclusive i runs rest run branch p c = ground arith

is_unknown-conclusive :
    (i : ℕ) (runs : List PushRun) (run : PushRun) (branch : String)
    → is_push branch run ≡ true
    → is_conclusive run ≡ true
    → is_unknown (trunk_from i (run ∷ runs) branch) ≡ false
unfolding trunk_from
is_unknown-conclusive i runs run branch p c = ground arith

trunk_from-skip :
    (i : ℕ) (runs : List PushRun) (run : PushRun) (branch : String)
    → is_conclusive run ≡ false
    → trunk_from i (run ∷ runs) branch ≡ trunk_from (suc i) runs branch
unfolding trunk_from
trunk_from-skip i runs run branch c = ground arith

-- The runs after the first conclusive one do not change the state.
pub trunk_from-up_to :
    (i : ℕ) (runs : List PushRun) (branch : String)
    → AllPush branch runs
    → trunk_from i (up_to is_conclusive runs) branch ≡ trunk_from i runs branch
unfolding up_to
trunk_from-up_to i [] branch h = refl
trunk_from-up_to i (run ∷ runs) branch (h, hs) = elim (Bool-cases (is_conclusive run)) [
  | inl c ↦ rw c (trunk_from-conclusive i [] runs run branch h c)
  | inr c ↦ rw c (
      trunk_from-skip i (up_to is_conclusive runs) run branch c
      ∙ trunk_from-up_to (suc i) runs branch hs
      ∙ sym (trunk_from-skip i runs run branch c))
]

-- The runs of a page in which nothing is conclusive are all kept, and leave the state to the others.
pub unknown_page :
    (i : ℕ) (runs : List PushRun) (branch : String)
    → AllPush branch runs
    → is_unknown (trunk_from i runs branch) ≡ true
    → (up_to is_conclusive runs ≡ runs)
      × ((j : ℕ) (rest : List PushRun)
          → trunk_from j (runs ++ rest) branch ≡ trunk_from (j + length runs) rest branch)
unfolding up_to
unknown_page i [] branch h e = (refl, λ j rest. ap (λ k. trunk_from k rest branch) (omega arith))
unknown_page i (run ∷ runs) branch (h, hs) e = elim (Bool-cases (is_conclusive run)) [
  | inl c ↦ absurd (ground (arith, is_unknown-conclusive i runs run branch h c))
  | inr c ↦
      let (same, skip) =
        unknown_page (suc i) runs branch hs (rw (trunk_from-skip i runs run branch c) at e) in
      (
        rw c (ap (◌∷◌ run) same),
        λ j rest.
            trunk_from-skip j (runs ++ rest) run branch c
            ∙ skip (suc j) rest
            ∙ ap (λ k. trunk_from k rest branch)
                (let n : suc j + length runs ≡ j + suc (length runs) = omega arith in n),
      )
]

unknown_nil :
    (i : ℕ) (branch : String) → AllPush branch [] → is_unknown (trunk_from i [] branch) ≡ false → ⊥
unfolding trunk_from
unknown_nil i branch h e = cc

pub decided_page :
    (i : ℕ) (runs : List PushRun) (branch : String)
    → AllPush branch runs
    → is_unknown (trunk_from i runs branch) ≡ false
    → (j : ℕ) (rest : List PushRun) → trunk_from j (runs ++ rest) branch ≡ trunk_from j runs branch
decided_page i [] branch h e j rest = absurd (unknown_nil i branch h e)
decided_page i (run ∷ runs) branch (h, hs) e j rest = elim (Bool-cases (is_conclusive run)) [
  | inl c ↦ trunk_from-conclusive j (runs ++ rest) runs run branch h c
  | inr c ↦
      trunk_from-skip j (runs ++ rest) run branch c
      ∙ decided_page (suc i) runs branch hs (rw (trunk_from-skip i runs run branch c) at e) (suc j)
          rest
      ∙ sym (trunk_from-skip j runs run branch c)
]

select-append :
    {A : Type 0} (test : A → Bool) (xs ys : List A)
    → select test (xs ++ ys) ≡ select test xs ++ select test ys
select-append test [] ys = refl
select-append test (x ∷ xs) ys = elim (Bool-cases (test x)) [
  | inl e ↦ rw e (ap (◌∷◌ x) (select-append test xs ys))
  | inr e ↦ rw e (select-append test xs ys)
]

pub verdicts-append :
    (api : Api) (branch base check : String) (xs ys : List PushRun)
    → verdicts api branch base check (xs ++ ys)
      ≡ verdicts api branch base check xs ++ verdicts api branch base check ys
verdicts-append api branch base check xs ys =
    ap (map (seen_as api branch base check)) (select-append (counts api branch base check) xs ys)
    ∙ map-append (seen_as api branch base check) _ _
