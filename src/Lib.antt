-- ===== src/Lib.antt =====
-- Verification library of the shared CI and merge machinery: the Python programs under
-- .github/actions and .github/red_main that decide whether a change may merge, whether the trunk is
-- red, which change broke it, and whether the merge queue holds.
--
-- The parts, and how they interact:
--
-- - NeedsPass, of .github/actions/needs-pass/needs_pass.py. The verdict over the results of the jobs
--   that one job needs: `verdict` returns the reasons to fail.
-- - CiOk, of .github/actions/ci-ok/ci_ok.py. The gate job of a single workflow: it reads NEEDS,
--   which is JSON (module Json), and calls the verdict of NeedsPass. `main` returns its exit status.
-- - CiOkPolling, of .github/actions/ci-ok-polling/ci_ok.py. The gate of a repository whose checks
--   live in several workflows. Runs: the check runs, suites and workflow runs, `latest_runs`,
--   `suite_events` and the tests for reading more. Evaluate: `evaluate`. Fetch: the pages of
--   `fetch` and `fetch_suites`. Loop: `poll_interval` and the loop of `main`.
-- - RedMain, of .github/red_main. Units: the failing units, a test or a job. Confirm: confirm.py,
--   which tells whether a second run repeats a failure of the first. Window: window.py, which walks
--   the earlier runs to the newest that clears a unit, and judges a candidate; Window.Live is what a
--   run shows, by its authenticated jobs. Culprit: culprit.py, which names the commit to blame. Hold:
--   hold.py, the hours without reverts. Proof: proof.py, which authenticates a run, its jobs and
--   their checks, reads their verdict, and lists the jobs that failed. What it reads from log archives, `urlencode`, `str` of a JSON value and the
--   substitutions of its regular expressions are parameters. Prev: prev.py, the run before the
--   failing one. Junit: junit.py and `read_junit` of window.py, over the files with their testcases.
--   Migration, RevertGuard and Gate: migration.py, revert_guard.py and gate.py, the rules that stop
--   a revert.
-- - CiRange, of .github/actions/ci-range/ci_range.py. Lanes: the declared lanes and `select`. Range:
--   `base_for` and `main`, which reads the newest verified commit by way of post_main.py, the same
--   text as proof.py, so it is RedMain.Proof. `fnmatch.fnmatchcase`, git and the API are parameters.
-- - CurlRetry, of .github/actions/_shared/curl_retry.py. The retry loop of a request inside its
--   budget, and Bounded: what bounds it. What curl answers, the time it takes and the random factor
--   of a delay are given.
-- - MainRedGate, of .github/actions/main-red-gate/main_red_gate.py. The gate of the merge queue.
--   Trunk: `trunk_state` and `newer_unfinished_run`. WayBack: `is_way_back`, `open_way_back` and
--   `decide`. History: `gate_runs` and `read_runs`. Hold: `main` for a merge group, with its hold.
--   Watch: `watch`, the alert for a trunk that stays red.
-- - RunStore, of .github/actions/run-store/parts.py. Parts: the manifest of a bundle, `split` and
--   `join`. Python's hashlib and json are parameters: the digest of bytes, and the length of a
--   value's JSON text. The number of parts that a manifest may have is the exact quotient, which is
--   what `math.ceil` of the float gives below 2 ^ 53 bytes.
-- - WorkflowLint, of .github/actions/workflow-lint/github_paths.py. Paths: the path filters of GitHub,
--   compiled to tokens. Ordered: the last filter that matches decides.
-- - Base: the Python that these programs are written in. Lists and comprehensions, sets (`distinct`),
--   `dict` as the list of its items, `sorted`, the methods of `str`, and decimal numbers.
--
-- A Python function is the definition of the same name; a `main` returns its exit status, and what
-- it prints is left out unless it is the result. A `dict` from JSON whose keys the code reads is a
-- record, with `none` for a key that is missing or null. Where Python compares by `is`, a value
-- carries its place in the list. Numbers are natural numbers and times are whole seconds,
-- but those of CurlRetry, which are in any unit.
--
-- The answers of GitHub's API are arguments: a schedule gives one round of readings for each pass
-- through a loop, with the time that they take, and a reading may fail with each of the exceptions
-- that the code tells apart. A theorem about pages says that the API serves a list in pages, each
-- full but the last.
--
-- Loops over a list are recursions on it. The loops that wait (CiOkPolling.Loop.poll and
-- MainRedGate.Hold.hold_loop) and the one over pages (CiOkPolling.Fetch.fetch_from) take fuel, and
-- answer `none` without it. Each pass of the gate's hold sleeps for a second or more, so more fuel
-- than the seconds until the deadline is enough. So it is for the polling loop where its interval is
-- above 0; an interval of 0 is allowed, and then it is enough where each reading takes a second or
-- more. For the pages, more fuel than there are rows is enough. The pages of Proof, its walk over the
-- parents of a commit and the attempts of CurlRetry are bounded by the limits that the code names.
--
-- Not modelled: the HTTP requests and the thread that bounds them, the regular expression that reads
-- a pull request's number from a ref, the rest of .github/red_main (the log archives of a run, the
-- infrastructure classifier, the issue and the revert), the subprocess and the redirects of
-- CurlRetry, the other scripts of the run store, the rest of the workflow linter, and the scripts
-- that only call other programs.
pub mod Base
pub mod Json
pub mod NeedsPass
pub mod CiOk
pub mod CiRange
pub mod CurlRetry
pub mod RedMain
pub mod CiOkPolling
pub mod MainRedGate
pub mod RunStore
pub mod WorkflowLint
