-- ===== src/Fusion.antt =====
-- Reciprocal rank fusion: internal/embed/rrf.go, and the sort that it shares with internal/query and
-- internal/similar.
pub mod Sort
pub mod Rank
pub mod Rrf
pub mod Keys
