-- ===== src/Saga.antt =====
-- transactional/saga
pub mod Definitions
pub mod Topology
pub mod Compensator
pub mod Orchestrator
pub mod Engine
pub mod Composition
