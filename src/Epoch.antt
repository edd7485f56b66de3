-- ===== src/Epoch.antt =====
-- internal/epoch: snapshots of the bundle.
pub mod Diff
pub mod Steps
pub mod Runner
