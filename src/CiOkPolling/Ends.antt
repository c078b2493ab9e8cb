-- ===== src/CiOkPolling/Ends.antt =====
-- The polling loop of ci-ok-polling/ci_ok.py ends.
use github.Base.{ℕ, zero, suc, ◌+◌, ◌-◌, ◌≤◌, ◌<◌, String, ◌≡◌, refl, inl, inr}
use github.Base.{Option, none, some, List, arith, ltb, leb, ltb→lt, Bool-cases, string_eq}
use github.CiOkPolling.Evaluate.{State, pending, fail, pass, evaluate}
use github.CiOkPolling.Loop.{Reading, read, rate_limited, unreadable, Round, poll_interval, Seen}
use github.CiOkPolling.Loop.{count_pass, Next, exit, sleep_until, after_evaluate, round}
use github.CiOkPolling.Loop.{poll}

poll_interval-le : (base : ℕ) (remaining : Option ℕ) → base ≤ poll_interval base remaining
unfolding poll_interval
poll_interval-le base none = omega arith
poll_interval-le base (some r) = ground arith

-- A round that goes on took time, to read or asleep.
Sleeps : ℕ → ℕ → Next → Type 0
Sleeps duration now (exit status) = Unit
Sleeps duration now (sleep_until time seen) = now < time + duration

after_evaluate-Sleeps :
    (interval duration now : ℕ) (remaining : Option ℕ) (seen : Seen) (result : State × List String)
    → 0 < interval + duration
    → Sleeps duration now (after_evaluate interval now remaining seen result)
unfolding after_evaluate Sleeps
after_evaluate-Sleeps interval duration now remaining seen (fail, d) h = tt
after_evaluate-Sleeps interval duration now remaining seen (pending, d) h =
    omega (arith, poll_interval-le interval remaining)
after_evaluate-Sleeps interval duration now remaining seen (pass, d) h =
    elim (Bool-cases (leb 2 (count_pass seen d).stable)) [
      | inl e ↦ rw e tt
      | inr e ↦ rw e (omega (arith, poll_interval-le interval remaining))
    ]

round-Sleeps :
    (interval duration deadline now : ℕ) (seen : Seen) (reading : Reading)
    → 0 < interval + duration
    → Sleeps duration now (round interval deadline now seen reading)
unfolding round Sleeps
round-Sleeps interval duration deadline now seen (read x remaining) h =
    after_evaluate-Sleeps interval duration now remaining seen (evaluate x) h
round-Sleeps interval duration deadline now seen (rate_limited reset) h =
    elim (Bool-cases (leb deadline reset)) [ inl e ↦ rw e tt | inr e ↦ rw e (omega arith) ]
round-Sleeps interval duration deadline now seen unreadable h = omega arith

module _ (schedule : ℕ → Round) (interval deadline : ℕ) where
  -- What the rest of the loop answers after a round.
  abbrev pub go_on : ℕ → ℕ → Next → Option ℕ
  go_on fuel i step = elim step [
    | exit status ↦ some status
    | sleep_until time seen ↦ poll schedule interval deadline fuel (suc i) time seen
  ]

  abbrev Answers : Option ℕ → Type 0
  Answers o = (status : ℕ) × (o ≡ some status)

  go_on-Answers :
      (fuel i now : ℕ) (step : Next)
      → now < deadline
      → deadline - now < suc fuel
      → (duration later : ℕ) → now + duration ≡ later
      → Sleeps duration later step
      → ((time : ℕ) (seen : Seen)
          → deadline - time < fuel
          → Answers (poll schedule interval deadline fuel (suc i) time seen))
      → Answers (go_on fuel i step)
  unfolding Sleeps
  go_on-Answers fuel i now (exit status) h f duration later l s rec = (status, refl)
  go_on-Answers fuel i now (sleep_until time seen) h f duration later l s rec =
      rec time seen (omega arith)

  -- The loop has an answer once the fuel exceeds the seconds that are left, where no round takes no
  -- time at all.
  pub poll-Answers :
      (fuel i now : ℕ) (seen : Seen)
      → ((j : ℕ) → 0 < interval + (schedule j).duration)
      → deadline - now < fuel
      → Answers (poll schedule interval deadline fuel i now seen)
  unfolding poll
  poll-Answers zero i now seen h f = absurd (omega arith)
  poll-Answers (suc fuel) i now seen h f = elim (Bool-cases (ltb now deadline)) [
    | inr e ↦ rw e (1, refl)
    | inl e ↦
        let later = now + (schedule i).duration in
        rw e (
          go_on-Answers fuel i now (round interval deadline later seen (schedule i).reading)
            (ltb→lt _ _ e) f (schedule i).duration later refl
            (round-Sleeps interval (schedule i).duration deadline later seen (schedule i).reading
              (h i))
            (λ time seen' k. poll-Answers fuel (suc i) time seen' h k))
  ]
