-- ===== src/Evalkit.antt =====
-- internal/evalkit: metrics of search results.
pub mod Metrics
