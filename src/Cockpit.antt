-- ===== src/Cockpit.antt =====
-- The cockpit: src/kagura_agent/cockpit/.
pub mod Approval
pub mod Sessions
pub mod Operator
pub mod MemoryWrite
pub mod Core
pub mod Hitl
pub mod Serve
