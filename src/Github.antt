-- ===== src/Github.antt =====
-- The harness's stand-in for the GitHub API and its MCP server (test-harness/lib).
pub mod Path
pub mod Api
pub mod Mcp
pub mod Tools
