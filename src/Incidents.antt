-- ===== src/Incidents.antt =====
-- apps/api/src/modules/incidents/incidents.service.ts: the operations of the API on incidents.
pub mod Rows
pub mod Status
pub mod Edit
pub mod Routes
pub mod Keys
pub mod Moved
pub mod Lifecycle
pub mod Listed
pub mod Ordered
pub mod Consistent
pub mod Preserve
pub mod Evolution
