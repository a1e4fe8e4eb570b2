-- ===== src/Core.antt =====
-- The core: src/kagura_agent/core/.
pub mod Session
pub mod Container
