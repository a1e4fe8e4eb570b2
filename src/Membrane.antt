-- ===== src/Membrane.antt =====
-- The credential membrane (src/kagura_agent/membrane).
pub mod Launcher
pub mod Lease
pub mod ContainerEnv
pub mod Grants
pub mod Granted
pub mod Graduation
pub mod SecretSource
pub mod Registry
pub mod Outcome
pub mod Egress
