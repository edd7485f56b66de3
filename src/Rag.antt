-- ===== src/Rag.antt =====
-- internal/rag: retrieval, grounding, answers, and the answer cache.
pub mod Cache
pub mod Types
pub mod Grounding
pub mod Render
pub mod Answer
pub mod Key
pub mod Pii
pub mod Adapters
pub mod Ask
