-- ===== src/Tcc.antt =====
-- transactional/tcc
pub mod Definitions
pub mod Orchestrator
