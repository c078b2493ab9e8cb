-- ===== src/CiOkPolling.antt =====
-- .github/actions/ci-ok-polling/ci_ok.py: the gate that polls the check runs of a commit.
pub mod Runs
pub mod Evaluate
pub mod Fetch
pub mod Loop
pub mod Newest
pub mod Latest
pub mod Verdict
pub mod Ends
pub mod Stable
mod Tests
