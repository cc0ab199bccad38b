-- ===== src/Shared.antt =====
-- packages/shared/src/utils: the pure helpers that the API and the workers share.
pub mod StateMachine
pub mod Severity
pub mod Retry
pub mod Arrays
