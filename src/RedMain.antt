-- ===== src/RedMain.antt =====
-- .github/red_main: how the handler of a red trunk reads its runs.
pub mod Units
pub mod Confirm
pub mod Window
pub mod Culprit
pub mod Proof
pub mod Prev
pub mod Junit
pub mod RevertGuard
pub mod Migration
pub mod Gate
pub mod Hold
mod FilterTests
mod Tests
