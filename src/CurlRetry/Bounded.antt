-- ===== src/CurlRetry/Bounded.antt =====
-- The attempts stay inside the policy.
use mathlib.Core.Option.{some-injective}
use mathlib.Core.Path.{subst}
use github.Base.{
  ℕ, zero, suc, ◌+◌, ◌≤◌, ◌<◌, min, String, ◌≡◌, ap, sym, inl, inr, true, false, ◌&&◌, Option, none,
  some,
}
use github.Base.{List, [], arith, length, All, leb, Bool-cases, ◌==◌, nat_eq, string_eq}
use github.CurlRetry.{
  Policy, is_valid, Result, is_refusal, is_retryable, Response, Attempt, retry_in, attempt_at,
  succeeds, loop, is_label, run,
}

-- An attempt inside a deadline: it starts before, curl's limit ends by then and is no longer than an
-- attempt may take. One that is tried again was not refused, and its delay ends before the deadline.
abbrev pub IsBounded : Policy → ℕ → Attempt → Type 0
IsBounded policy deadline a =
    (a.started < deadline)
    × (a.started + a.limit ≤ deadline)
    × (a.limit ≤ policy.attempt_time)
    × ((delay : ℕ)
        → a.retry_in ≡ some delay
        → (a.finished + delay < deadline) × (is_refusal a.result ≡ false))

is_retryable-refusal : (result : Result) → is_retryable result ≡ true → is_refusal result ≡ false
unfolding is_retryable
is_retryable-refusal result e = elim (Bool-cases (is_refusal result)) [
  | inr other ↦ other
  | inl refused ↦ absurd (true_false (sym (rw refused at e)))
]
  where
    true_false : true ≡ false → ⊥
    true_false h = cc

retry_in-bound :
    (policy : Policy) (attempt remaining jittered : ℕ) (result : Result) (delay : ℕ)
    → retry_in policy attempt remaining jittered result ≡ some delay
    → (delay < remaining) × (is_refusal result ≡ false)
unfolding retry_in
retry_in-bound policy attempt remaining jittered result delay e =
    elim (Bool-cases (is_retryable result)) [
      | inr permanent ↦ absurd (nothing (rw permanent at e))
      | inl retryable ↦ elim (Bool-cases (attempt == policy.attempts)) [
        | inl last ↦ absurd (nothing (rw (retryable, last) at e))
        | inr more ↦ elim (Bool-cases (leb remaining 0)) [
          | inl over ↦ absurd (nothing (rw (retryable, more, over) at e))
          | inr left ↦ elim (Bool-cases (leb remaining (min jittered remaining))) [
            | inl long ↦ absurd (nothing (rw (retryable, more, left, long) at e))
            | inr short ↦
                let same : min jittered remaining ≡ delay =
                  some-injective _ _ (rw (retryable, more, left, short) at e) in
                (ground arith, is_retryable-refusal result retryable)
          ]
        ]
      ]
    ]
  where
    nothing : ◌≡◌ {A = Option ℕ} none (some delay) → ⊥
    nothing g = cc

module _ (ip_address : String → Option String) (policy : Policy) (answer : ℕ → Response × ℕ)
    (jitter : ℕ → ℕ → ℕ) (deadline : ℕ) where
  attempt_at-IsBounded :
      (attempt now : ℕ)
      → now < deadline
      → IsBounded policy deadline (attempt_at ip_address policy answer jitter deadline attempt now)
  attempt_at-IsBounded attempt now before = (
    before,
    omega arith,
    omega arith,
    λ delay e.
        elim (Bool-cases
          (succeeds (attempt_at ip_address policy answer jitter deadline attempt now).result)) [
            | inl good ↦ absurd (nothing delay (rw good at e))
            | inr bad ↦
                let (short, kept) = retry_in-bound policy attempt _ _ _ delay (rw bad at e) in
                (omega arith, kept)
          ],
  )
    where
      nothing : (delay : ℕ) → ◌≡◌ {A = Option ℕ} none (some delay) → ⊥
      nothing delay g = cc

  loop-IsBounded :
      (left attempt now : ℕ)
      → (length (loop ip_address policy answer jitter deadline left attempt now) ≤ left)
        × All
            (IsBounded policy deadline)
            (loop ip_address policy answer jitter deadline left attempt now)
  unfolding loop
  loop-IsBounded zero attempt now = (omega arith, tt)
  loop-IsBounded (suc left) attempt now = elim (Bool-cases (leb deadline now)) [
    | inl over ↦ rw over (omega arith, tt)
    | inr before ↦
        let here = attempt_at-IsBounded attempt now (ground arith) in
        rw before (
          by_retry (attempt_at ip_address policy answer jitter deadline attempt now).retry_in
            (attempt_at ip_address policy answer jitter deadline attempt now) left attempt here
            (λ later. loop-IsBounded left (attempt + 1) later))
  ]
    where
      then_loop : Attempt → ℕ → ℕ → Option ℕ → List Attempt
      then_loop a left attempt o = elim o [
        | none ↦ []
        | some delay ↦
            loop ip_address policy answer jitter deadline left (attempt + 1) (a.finished + delay)
      ]

      by_retry :
          (o : Option ℕ) (a : Attempt) (left attempt : ℕ)
          → IsBounded policy deadline a
          → ((later : ℕ)
              → (length (loop ip_address policy answer jitter deadline left (attempt + 1) later)
                  ≤ left)
                × All
                    (IsBounded policy deadline)
                    (loop ip_address policy answer jitter deadline left (attempt + 1) later))
          → (suc (length (then_loop a left attempt o)) ≤ suc left)
            × (IsBounded policy deadline a
                × All (IsBounded policy deadline) (then_loop a left attempt o))
      by_retry none a left attempt h rest = (omega arith, (h, tt))
      by_retry (some delay) a left attempt h rest =
          let (short, all) = rest (a.finished + delay) in (omega arith, (h, all))

-- A request makes at most as many attempts as its policy says, and these are at most five. Each
-- attempt starts before the deadline, and gives curl a limit that is no longer than an attempt may
-- take and ends by the deadline. An attempt that is followed by another was not refused for good,
-- and its delay ends before the deadline.
pub run-IsBounded :
    (ip_address : String → Option String) (policy : Policy) (answer : ℕ → Response × ℕ)
    (jitter : ℕ → ℕ → ℕ) (label : String) (now : ℕ) (made : List Attempt) (result : Result)
    → run ip_address policy answer jitter label now ≡ some (made, result)
    → (length made ≤ policy.attempts)
      × (policy.attempts ≤ 5)
      × All (IsBounded policy (now + policy.budget)) made
unfolding run is_valid
run-IsBounded ip_address policy answer jitter label now made result e =
    elim (Bool-cases (is_valid policy && is_label label)) [
      | inr refused ↦ absurd (nothing (rw refused at e))
      | inl accepted ↦
          let same = ap first_of (some-injective _ _ (rw accepted at e)) in
          let (short, all) =
            loop-IsBounded ip_address policy answer jitter (now + policy.budget) policy.attempts 1
              now in
          let at_most : policy.attempts ≤ 5 = ground arith in
          subst
            (λ l.
              (length l ≤ policy.attempts)
              × (policy.attempts ≤ 5)
              × All (IsBounded policy (now + policy.budget)) l)
            same (short, at_most, all)
    ]
  where
    first_of : List Attempt × Result → List Attempt
    first_of (l, r) = l

    nothing : ◌≡◌ {A = Option (List Attempt × Result)} none (some (made, result)) → ⊥
    nothing g = cc
