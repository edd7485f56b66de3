-- ===== src/Query.antt =====
-- internal/query: hybrid search, query expansion and multi-query search.
pub mod Tokens
pub mod Hybrid
pub mod Vocab
pub mod Expand
pub mod Matched
pub mod Multi
