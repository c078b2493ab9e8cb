-- ===== src/MainRedGate.antt =====
-- .github/actions/main-red-gate: while the trunk is red, only the way back is admitted.
pub mod Trunk
pub mod Decided
pub mod WayBack
pub mod Prefixes
pub mod Reverts
pub mod Admits
pub mod Outcome
pub mod History
pub mod Reference
pub mod Gathered
pub mod States
pub mod Pages
pub mod Hold
pub mod Refusal
pub mod Gate
pub mod Watch
mod Tests
