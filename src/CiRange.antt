-- ===== src/CiRange.antt =====
-- The range of a run and the lanes that it selects: .github/actions/ci-range/ci_range.py.
pub mod Lanes
pub mod Range
pub mod Selected
pub mod Covers
mod Tests
