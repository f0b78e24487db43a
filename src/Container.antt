-- ===== src/Container.antt =====
-- container/: the dependency injection container.
pub mod State
pub mod Registry
pub mod Resolve
mod Keeps
mod Parts
mod Building
pub mod Registering
pub mod Depth
pub mod Singletons
mod Tests
