-- ===== src/Kbmcp.antt =====
-- internal/kbmcp: the tools of the MCP server.
pub mod Ask
