-- ===== src/RedMain/Proof.antt =====
-- .github/red_main/proof.py: what proves a commit of the trunk.
pub mod Origin
pub mod Pages
pub mod Checks
pub mod Verdict
pub mod Proven
pub mod Runs
pub mod Newest
pub mod Gathered
pub mod Counted
pub mod Failed
pub mod Complete
pub mod Command
pub mod Sample
mod Tests
