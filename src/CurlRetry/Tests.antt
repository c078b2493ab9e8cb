-- ===== src/CurlRetry/Tests.antt =====
-- Runs of curl_retry.py, and its theorem at concrete data.
use github.Base.{
  library, true, ℕ, ◌+◌, ◌≤◌, String, ◌≡◌, refl, Option, some, none, List, [], ◌∷◌, length, All,
  eqb, if◌then◌else◌,
}
use github.Base.Text.{has_char, partition, codes, starts_with, every, text_length}
use github.CurlRetry.{
  Policy, Response, ended, timed_out, Attempt, run, metrics, quote, cause_of, exit_status,
}
use github.CurlRetry.Bounded.{IsBounded, run-IsBounded}

abbrev policy : Policy
policy = record { attempts = 5; budget = 100; attempt_time = 30; base_delay = 2 }

-- The first run times out, and the second succeeds.
abbrev answer : ℕ → Response × ℕ
answer attempt =
    if eqb attempt 1 then (timed_out, 30) else (ended "0.1\t0.2\t0.3\t0.4\t0.5\t10.0.0.1\t200" 0, 5)

abbrev address : String → Option String
address s = some s

abbrev jitter : ℕ → ℕ → ℕ
jitter attempt delay = delay + 1

abbrev made : List Attempt
made =
    record {
      started = 10;
      limit = 30;
      finished = 40;
      result = record { code = "000"; returncode = 28 };
      retry_in = some 3;
    }
    ∷ record {
      started = 43;
      limit = 30;
      finished = 48;
      result = record { code = "200"; returncode = 0 };
      retry_in = none;
    }
    ∷ []

run_test :
    run address policy answer jitter "store-read" 10
    ≡ some (made, record { code = "200"; returncode = 0 })
unfolding run metrics has_char partition codes every text_length library
run_test = refl

run-IsBounded_example : (length made ≤ 5) × (5 ≤ 5) × All (IsBounded policy (10 + 100)) made
run-IsBounded_example =
    run-IsBounded address policy answer jitter "store-read" 10 made
      (record { code = "200"; returncode = 0 }) run_test

quote_test : quote "a\"b" ≡ some "\"a\\\"b\""
unfolding quote every
quote_test = refl

status_test : exit_status true (record { code = "404"; returncode = 0 }) ≡ 22
unfolding exit_status codes library
status_test = refl

cause_test : cause_of (record { code = "200"; returncode = 0 }) ≡ none
unfolding cause_of starts_with library
cause_test = refl
