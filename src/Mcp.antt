-- ===== src/Mcp.antt =====
-- The memory clients: src/kagura_agent/mcp/.
mod Examples
pub mod Local
pub mod Quarantine
pub mod Reachable
pub mod RestBootstrap
