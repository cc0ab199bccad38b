-- ===== src/Tests.antt =====
-- Tests and witnesses.
pub mod Data
pub mod Accounts
pub mod Delivery
pub mod Lifecycle
pub mod Processing
pub mod Registry
pub mod Rights
pub mod Counters
pub mod Infra
pub mod Ingestion
pub mod Monitoring
pub mod Shifts
pub mod Utilities
