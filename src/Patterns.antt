-- ===== src/Patterns.antt =====
-- The patterns: src/kagura_agent/patterns/.
pub mod Checkpoint
pub mod Continuity
pub mod Erasure
pub mod FailureLearning
pub mod Prompt
pub mod Provenance
pub mod Reinforce
mod Examples
