-- ===== src/Cqrs.antt =====
-- cqrs/: the command bus and the query bus.
pub mod ValidationResult
pub mod AuthorizationResult
pub mod Messages
pub mod Registry
pub mod Correlation
pub mod Admission
pub mod Handling
mod Guards
pub mod CommandBus
pub mod QueryBus
mod Tests
