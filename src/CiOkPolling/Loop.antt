-- ===== src/CiOkPolling/Loop.antt =====
-- The polling loop of ci-ok-polling/ci_ok.py. What the API answers and how long each reading takes
-- are given by a schedule, one round for each pass through the loop; times are whole seconds.
use github.Base.{ℕ, zero, suc, ◌+◌, ◌*◌, String, Bool, true, false, ◌&&◌, Option, none, some}
use github.Base.{List, [], ◌∷◌, ltb, leb, max, ◌==◌, string_eq, if◌then◌else◌}
use github.CiOkPolling.Evaluate.{State, pending, fail, pass, Inputs, evaluate}

-- What a round reads: the arguments of `evaluate` with the token's budget that is left, if known; a
-- spent budget with the time of its return; or any other error.
pub data Reading : Type 0 where
  read : Inputs → Option ℕ → Reading
  rate_limited : ℕ → Reading
  unreadable : Reading

pub record Round : Type 0 where
  pub duration : ℕ
  pub reading : Reading

-- `poll_interval`
unfoldable pub poll_interval : ℕ → Option ℕ → ℕ
poll_interval base none = base
poll_interval base (some remaining) = if ltb remaining 200 then max base 60 else base

-- `last` and `stable`
pub record Seen : Type 0 where
  pub last : Option (List String)
  pub stable : ℕ

abbrev pub nothing_seen : Seen
nothing_seen = record { last = none; stable = 0 }

abbrev pub list_beq : List String → List String → Bool
list_beq [] [] = true
list_beq (s ∷ ss) (t ∷ ts) = s == t && list_beq ss ts
list_beq _ _ = false

abbrev pub same_detail : Option (List String) → List String → Bool
same_detail none detail = false
same_detail (some last) detail = list_beq detail last

-- The counting of equal passes.
unfoldable pub count_pass : Seen → List String → Seen
count_pass seen detail = record {
  last = some detail;
  stable = if same_detail seen.last detail then seen.stable + 1 else 1;
}

-- What a round does: it returns a status, or sleeps until a time and goes on.
pub data Next : Type 0 where
  exit : ℕ → Next
  sleep_until : ℕ → Seen → Next

unfoldable pub after_evaluate : ℕ → ℕ → Option ℕ → Seen → State × List String → Next
after_evaluate interval now remaining seen (fail, detail) = exit 1
after_evaluate interval now remaining seen (pending, detail) =
    sleep_until (now + poll_interval interval remaining) nothing_seen
after_evaluate interval now remaining seen (pass, detail) =
    let seen' = count_pass seen detail in
    if leb 2 seen'.stable
    then exit 0
    else sleep_until (now + poll_interval interval remaining) seen'

-- One pass through the loop, `now` after its reading.
unfoldable pub round : ℕ → ℕ → ℕ → Seen → Reading → Next
unfolding after_evaluate count_pass poll_interval
round interval deadline now seen (read x remaining) =
    after_evaluate interval now remaining seen (evaluate x)
round interval deadline now seen (rate_limited reset) =
    if leb deadline reset then exit 1 else sleep_until (max reset now + 5) seen
round interval deadline now seen unreadable = sleep_until (now + interval) seen

-- The loop from round `i` at time `now`; `none` means that the fuel ran out.
unfoldable pub poll : (schedule : ℕ → Round) → ℕ → ℕ → ℕ → ℕ → ℕ → Seen → Option ℕ
poll schedule interval deadline zero i now seen = none
poll schedule interval deadline (suc fuel) i now seen =
    let step = round interval deadline (now + (schedule i).duration) seen (schedule i).reading in
    let rest : Option ℕ = elim step [
      | exit status ↦ some status
      | sleep_until time seen' ↦ poll schedule interval deadline fuel (suc i) time seen'
    ] in
    if ltb now deadline then rest else some 1

-- `main` from the time `start`: the settling sleep, then the loop.
unfoldable pub main : (schedule : ℕ → Round) → ℕ → ℕ → ℕ → ℕ → ℕ → Option ℕ
unfolding poll
main schedule interval timeout_minutes settle fuel start =
    poll schedule interval (start + 60 * timeout_minutes) fuel 0 (start + settle) nothing_seen
