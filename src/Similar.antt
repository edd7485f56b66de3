-- ===== src/Similar.antt =====
-- internal/similar: concepts similar to a given one.
pub mod Hits
pub mod Select
pub mod Signals
pub mod Domain
pub mod Page
pub mod Dispatch
