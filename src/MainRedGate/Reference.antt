-- ===== src/MainRedGate/Reference.antt =====
-- What the gate's reading of the history comes to where the API answers: the verdicts of all push
-- runs on the trunk at ancestors of the base.
use github.Base.{
  ℕ, ◌<◌, ◌≡◌, ◌⊎◌, refl, ap, sym, ◌∙◌, inl, inr, String, Bool, true, false, ◌&&◌, ◌||◌, Option,
  none, some,
}
use github.Base.{
  List, [], ◌∷◌, ◌++◌, map, arith, length, select, first, Bool-cases, ltb, ◌==◌, string_eq,
  option_eq, if◌then◌else◌, eq_iff,
}
use mathlib.Core.Option.{some-injective}
use github.Base.Pieces.{concat}
use github.Base.Text.{is_blank}
use github.Base.Dict.{lookup, put, lookup-put}
use github.MainRedGate.Trunk.{PushRun, is_in, is_push}
use github.MainRedGate.Outcome.{Outcome, returned}
use github.MainRedGate.History.{
  Job, Api, page_size, Ancestry, recall, is_judged, is_named, page_found, page_verdict,
  find_verdict,
}
use github.MainRedGate.History.{project, projected}

-- The pages of a list, each full but the last.
abbrev pub Paged : {A : Type 0} → List (List A) → Type 0
Paged [] = ⊥
Paged (page ∷ pages) =
    ((length page < page_size) × (pages ≡ [])) ⊎ ((length page ≡ page_size) × Paged pages)

first-append :
    {A : Type 0} (test : A → Bool) (xs ys : List A)
    → first test xs ≡ none
    → first test (xs ++ ys) ≡ first test ys
first-append test [] ys h = refl
first-append test (x ∷ xs) ys h = elim (Bool-cases (test x)) [
  | inl e ↦ absurd (ground arith)
  | inr e ↦ rw e (first-append test xs ys (rw e at h))
]

first-append_some :
    {A : Type 0} (test : A → Bool) (xs ys : List A) (a : A)
    → first test xs ≡ some a
    → first test (xs ++ ys) ≡ some a
first-append_some test [] ys a h = cc
first-append_some test (x ∷ xs) ys a h = elim (Bool-cases (test x)) [
  | inl e ↦ rw e (rw e at h)
  | inr e ↦ rw e (first-append_some test xs ys a (rw e at h))
]

verdict_of_page :
    (check : String) (page : List Job) (rest : List Job) (next : Outcome (Option Job))
    (found : Option Job)
    → first (is_named check) page ≡ found
    → ((length page < page_size) × (rest ≡ []))
      ⊎ ((length page ≡ page_size) × (next ≡ returned (first (is_named check) rest)))
    → page_verdict check page next ≡ returned (first (is_named check) (page ++ rest))
unfolding page_found
verdict_of_page check page rest next (some job) e h =
    rw (e, first-append_some (is_named check) page rest job e) refl
verdict_of_page check page rest next none e (inl (short, f)) =
    let last : ltb (length page) 100 ≡ true = ground arith in
    rw (e, first-append (is_named check) page rest e, f, last) refl
verdict_of_page check page rest next none e (inr (full, f)) =
    let more : ltb (length page) 100 ≡ false = ground arith in
    rw (e, first-append (is_named check) page rest e, more) f

-- Where the API serves the jobs of a run in pages of 100, the verdict is the first job of that name
-- on any page, and none where no page has one.
pub find_verdict-first :
    (check : String) (pages : List (List Job))
    → Paged pages
    → find_verdict check (map returned pages) ≡ returned (first (is_named check) (concat pages))
unfolding find_verdict
find_verdict-first check [] h = absurd h
find_verdict-first check (page ∷ pages) (inl (short, e)) =
    verdict_of_page check page (concat pages) _ _ refl (inl (short, ap concat e))
find_verdict-first check (page ∷ pages) (inr (full, h)) =
    verdict_of_page check page (concat pages) _ _ refl
      (inr (full, find_verdict-first check pages h))

module _ (api : Api) (branch base check : String) where
  -- Every comparison and every run's verdict can be read.
  abbrev pub Readable : Type 0
  Readable =
      ((sha : String) → (status : Option String) × (api.compare sha ≡ returned status))
      × ((id : ℕ) → (verdict : Option Job) × (find_verdict check (api.jobs id) ≡ returned verdict))

  abbrev compared : Outcome (Option String) → Bool
  compared (returned status) = is_in status ("ahead" ∷ "identical" ∷ [])
  compared _ = false

  -- The base itself, or a commit that the comparison finds to be an ancestor.
  abbrev pub precedes : String → Bool
  precedes sha = sha == base || compared (api.compare sha)

  abbrev pub counts : PushRun → Bool
  counts run = is_push branch run && (is_blank base || precedes run.head_sha)

  abbrev verdict_in : Outcome (Option Job) → Option Job
  verdict_in (returned verdict) = verdict
  verdict_in _ = none

  abbrev pub seen_as : PushRun → PushRun
  seen_as run =
      if is_blank check
      then run
      else project run (verdict_in (find_verdict check (api.jobs run.id)))

  -- The verdicts of all the runs that count, without an end at the first.
  abbrev pub verdicts : List PushRun → List PushRun
  verdicts runs = map seen_as (select counts runs)

  -- What is remembered of a commit is true.
  abbrev pub Remembers : Ancestry → Type 0
  Remembers ancestry =
      (sha : String) (known : Bool) → lookup ancestry sha ≡ some known → known ≡ precedes sha

  abbrev pub Known : PushRun → Outcome (Bool × Ancestry) → Type 0
  Known run o = (ancestry : Ancestry) × (o ≡ returned (counts run, ancestry)) × Remembers ancestry

  Remembers-put :
      (ancestry : Ancestry) (sha : String) (known : Bool)
      → Remembers ancestry
      → known ≡ precedes sha
      → Remembers (put ancestry sha known)
  Remembers-put ancestry sha known r e other b h = elim (Bool-cases (sha == other)) [
    | inl same ↦
        some-injective b known (sym h ∙ lookup-put ancestry sha other known ∙ rw same refl)
        ∙ e
        ∙ ap precedes ((eq_iff sha other).0 same)
    | inr differs ↦
        let before : lookup ancestry other ≡ some b =
          let l = sym (lookup-put ancestry sha other known) ∙ h in rw differs at l in
        r other b before
  ]

  recall-Known :
      Readable
      → (ancestry : Ancestry) (sha : String) (remembered : Option Bool)
      → lookup ancestry sha ≡ remembered
      → Remembers ancestry
      → (after : Ancestry) × (recall api base sha ancestry remembered
          ≡ returned (precedes sha, after))
        × Remembers after
  unfolding recall
  recall-Known _ ancestry sha (some known) e r =
      (ancestry, ap (λ k. returned (k, ancestry)) (r sha known e), r)
  recall-Known (compares, _) ancestry sha none e r = elim (Bool-cases (sha == base)) [
    | inl same ↦
        let yes : precedes sha ≡ true = ground arith in
        (put ancestry sha true, rw same refl, Remembers-put ancestry sha true r (sym yes))
    | inr differs ↦
        let (status, f) = compares sha in
        let known : Bool = is_in status ("ahead" ∷ "identical" ∷ []) in
        let yes : precedes sha ≡ known = rw (differs, f) refl in
        (put ancestry sha known, rw (differs, f) refl, Remembers-put ancestry sha known r (sym yes))
  ]

  pub is_judged-Known :
      Readable
      → (ancestry : Ancestry) (run : PushRun) → Remembers ancestry
      → Known run (is_judged api branch base ancestry run)
  unfolding is_judged
  is_judged-Known readable ancestry run r = elim (Bool-cases (is_push branch run)) [
    | inr e ↦ (ancestry, rw e refl, r)
    | inl e ↦ elim (Bool-cases (is_blank base)) [
      | inl f ↦ (ancestry, rw (e, f) refl, r)
      | inr f ↦
          let (after, g, r') = recall-Known readable ancestry run.head_sha _ refl r in
          (after, rw (e, f) g, r')
    ]
  ]

  pub projected-seen : Readable → (run : PushRun) → projected api check run ≡ returned (seen_as run)
  unfolding projected
  projected-seen (_, finds) run = elim (Bool-cases (is_blank check)) [
    | inl e ↦ rw e refl
    | inr e ↦ let (verdict, f) = finds run.id in rw (e, f) refl
  ]
