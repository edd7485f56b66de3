-- ===== src/Hql.antt =====
-- internal/hql: the query language and its translation to SQL.
pub mod Errors
pub mod Ast
pub mod Op
pub mod Lexer
pub mod Monad
pub mod Ensures
pub mod Values
pub mod Parser
pub mod Schema
pub mod Functions
pub mod Sql
pub mod Builder
