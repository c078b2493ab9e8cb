-- ===== src/CurlRetry.antt =====
-- .github/actions/_shared/curl_retry.py: a request by curl, with retries inside a budget. Times are
-- natural numbers in one unit, which is small enough for them to be whole. curl is given by a
-- schedule: what each of its runs answers, and how long it takes.
pub mod Bounded
mod Tests
use github.Base.{
  ℕ, zero, suc, ◌+◌, ◌-◌, ◌*◌, ◌^◌, min, String, ◌<>◌, Bool, true, false, not, ◌&&◌, ◌||◌, Option,
  none, some,
}
use github.Base.{
  List, [], ◌∷◌, map, contains, leb, ltb, eqb, ◌==◌, string_eq, nat_eq, if◌then◌else◌,
}
use github.Base.Text.{
  split, strip, starts_with, every, is_blank, text_length, partition, has_char, codes, join,
}
use github.Base.Decimal.{decimal}

abbrev pub transient : List ℕ
transient = 6 ∷ 7 ∷ 28 ∷ 35 ∷ 52 ∷ 56 ∷ []

pub record Policy : Type 0 where
  pub attempts : ℕ
  pub budget : ℕ
  pub attempt_time : ℕ
  pub base_delay : ℕ

-- What `__post_init__` accepts: a policy that it refuses raises.
unfoldable pub is_valid : Policy → Bool
is_valid policy =
    leb 1 policy.attempts
    && leb policy.attempts 5
    && leb 1 policy.budget
    && leb 1 policy.attempt_time

pub record Result : Type 0 where
  pub code : String
  pub returncode : ℕ

-- The cause that `require_success` raises with, if any.
unfoldable pub cause_of : Result → Option String
cause_of result =
    if not (result.returncode == 0)
    then some ("curl exit " <> decimal result.returncode)
    else if not (starts_with result.code "2")
    then some ("HTTP " <> result.code)
    else none

abbrev is_digit : ℕ → Bool
is_digit c = leb 48 c && leb c 57

abbrev are_digits : ℕ → ℕ → String → Bool
are_digits low high s = every is_digit s && leb low (text_length s) && leb (text_length s) high

-- [0-9]{1,12}\.[0-9]{1,9}
unfoldable pub is_duration : String → Bool
is_duration s =
    has_char b'.' s && are_digits 1 12 (partition b'.' s).0 && are_digits 1 9 (partition b'.' s).1

-- The timings, the address and the status of one run.
pub record Metrics : Type 0 where
  pub times : List String
  pub remote_ip : String
  pub http_code : String

abbrev or_unavailable : (String → Bool) → String → String
or_unavailable test s = if test s then s else "unavailable"

abbrev no_metrics : Metrics
no_metrics = record {
  times = "unavailable" ∷ "unavailable" ∷ "unavailable" ∷ "unavailable" ∷ "unavailable" ∷ [];
  remote_ip = "unavailable";
  http_code = "000";
}

-- `ipaddress.ip_address` is a parameter: the address as it is written, or an error.
module _ (ip_address : String → Option String) where
  abbrev address_in : String → String
  address_in s =
      if has_char b'%' s
      then "unavailable"
      else elim (ip_address s) [ none ↦ "unavailable" | some ip ↦ ip ]

  abbrev metrics_in : List String → Metrics
  metrics_in (a ∷ b ∷ c ∷ d ∷ e ∷ ip ∷ code ∷ []) = record {
    times = map (or_unavailable is_duration) (a ∷ b ∷ c ∷ d ∷ e ∷ []);
    remote_ip = address_in ip;
    http_code = if are_digits 3 3 code then code else "000";
  }
  metrics_in _ = no_metrics

  unfoldable pub metrics : String → Metrics
  unfolding is_duration
  metrics raw = metrics_in (split 9 (strip raw))

-- `int(code)` of digits
abbrev number_from : ℕ → List ℕ → ℕ
number_from n [] = n
number_from n (c ∷ cs) = number_from (n * 10 + (c - 48)) cs

abbrev status_of : Result → ℕ
status_of result = number_from 0 (codes result.code)

unfoldable pub succeeds : Result → Bool
succeeds result = result.returncode == 0 && not (result.code == "000") && ltb (status_of result) 400

abbrev pub is_refusal : Result → Bool
is_refusal result = contains ("401" ∷ "403" ∷ "404" ∷ []) result.code

unfoldable pub is_retryable : Result → Bool
is_retryable result =
    not (is_refusal result)
    && (if result.returncode == 0
        then result.code == "429" || (leb 500 (status_of result) && leb (status_of result) 599)
        else contains transient result.returncode)

-- What a run of curl answers: its output and exit status, or nothing before the timeout. The time
-- that it takes is given with it.
pub data Response : Type 0 where
  ended : String → ℕ → Response
  timed_out : Response

abbrev result_of : (String → Option String) → Response → Result
result_of ip_address (ended output status) = record {
  code = (metrics ip_address output).http_code;
  returncode = status;
}
result_of ip_address timed_out = record { code = "000"; returncode = 28 }

-- One run: when it starts, the limit that curl is given, when it ends, its result, and the delay
-- after which it is tried again, if it is.
pub record Attempt : Type 0 where
  pub started : ℕ
  pub limit : ℕ
  pub finished : ℕ
  pub result : Result
  pub retry_in : Option ℕ

-- The stop of an attempt, as the delay after which the next one follows.
unfoldable pub retry_in : Policy → ℕ → ℕ → ℕ → Result → Option ℕ
retry_in policy attempt remaining jittered result =
    if not (is_retryable result)
    then none
    else if attempt == policy.attempts
    then none
    else if leb remaining 0
    then none
    else if leb remaining (min jittered remaining)
    then none
    else some (min jittered remaining)

-- `answer n` is what the n-th run gives and the time it takes, and `jitter n d` the product of d and
-- the random factor after it.
module _ (ip_address : String → Option String) (policy : Policy) (answer : ℕ → Response × ℕ)
    (jitter : ℕ → ℕ → ℕ) (deadline : ℕ) where
  abbrev pub attempt_at : ℕ → ℕ → Attempt
  attempt_at attempt now =
      let result = result_of ip_address (answer attempt).0 in
      let finished = now + (answer attempt).1 in
      record {
        started = now;
        limit = min policy.attempt_time (deadline - now);
        finished = finished;
        result = result;
        retry_in =
            if succeeds result
            then none
            else retry_in policy attempt (deadline - finished)
                (jitter attempt (policy.base_delay * 2 ^ (attempt - 1))) result;
      }

  -- The loop, for the attempts that are left.
  unfoldable pub loop : ℕ → ℕ → ℕ → List Attempt
  unfolding succeeds is_retryable retry_in
  loop zero attempt now = []
  loop (suc left) attempt now =
      if leb deadline now
      then []
      else attempt_at attempt now ∷ elim (attempt_at attempt now).retry_in [
        | none ↦ []
        | some delay ↦ loop left (attempt + 1) ((attempt_at attempt now).finished + delay)
      ]

-- [a-z][a-z0-9-]{0,47}
abbrev is_label_char : ℕ → Bool
is_label_char c = (leb 97 c && leb c 122) || is_digit c || eqb c b'-'

unfoldable pub is_label : String → Bool
is_label label =
    every is_label_char label
    && not (is_blank label)
    && leb (text_length label) 48
    && every (λ c. not (is_digit c) && not (eqb c b'-')) (first_of label)
  where
    first_of : String → String
    first_of String.[] = ""
    first_of (String.◌∷◌ c s) = String.◌∷◌ c String.[]

abbrev last_result : Result → List Attempt → Result
last_result result [] = result
last_result result (a ∷ rest) = last_result a.result rest

-- `run`: the attempts that are made, and the last result. `none` is an exception.
unfoldable pub run :
    (String → Option String)
    → Policy
    → (ℕ → Response × ℕ)
    → (ℕ → ℕ → ℕ)
    → String
    → ℕ
    → Option (List Attempt × Result)
unfolding loop is_valid is_label
run ip_address policy answer jitter label now =
    let made = loop ip_address policy answer jitter (now + policy.budget) policy.attempts 1 now in
    if is_valid policy && is_label label
    then some (made, last_result (record { code = "000"; returncode = 28 }) made)
    else none

abbrev escaped : String → String
escaped String.[] = ""
escaped (String.◌∷◌ c s) =
    if every (λ d. eqb d 92 || eqb d 34) (String.◌∷◌ c String.[])
    then "\\" <> String.◌∷◌ c (escaped s)
    else String.◌∷◌ c (escaped s)

-- `quote`, with `none` for a value that has an end of line or a null character
unfoldable pub quote : String → Option String
quote value =
    if every (λ c. not (eqb c 13 || eqb c 10 || eqb c 0)) value
    then some ("\"" <> (escaped value <> "\""))
    else none

abbrev add_header : Option String → Option String → Option String
add_header (some header) (some rest) = some ("header = " <> (header <> ("\n" <> rest)))
add_header _ _ = none

abbrev headers_in : List String → Option String
headers_in [] = some ""
headers_in (header ∷ headers) = add_header (quote header) (headers_in headers)

abbrev with_url : Option String → Option String → Option String
with_url (some url) (some rest) = some ("url = " <> (url <> ("\n" <> rest)))
with_url _ _ = none

-- The configuration that `request` gives curl.
unfoldable pub config_of : String → List String → Option String
unfolding quote
config_of url headers = with_url (quote url) (headers_in headers)

-- The exit status of `main`.
unfoldable pub exit_status : Bool → Result → ℕ
exit_status fail_http result =
    if not (result.returncode == 0)
    then result.returncode
    else if fail_http && leb 400 (status_of result)
    then 22
    else 0
