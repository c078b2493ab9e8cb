-- ===== src/RunStore.antt =====
-- .github/actions/run-store: bundles that are too large for one upload, as parts and a manifest.
pub mod Parts
pub mod Join
pub mod Integrity
pub mod Written
pub mod RoundTrip
mod Tests
