-- ===== src/Store.antt =====
-- internal/store: the tables, and the functions of package store over them as functions on an
-- explicit database state.
pub mod Models
pub mod Db
pub mod Machines
pub mod Service
pub mod Endpoints
pub mod Owners
pub mod Audit
pub mod Status
pub mod Invariant
pub mod Sessions
pub mod Settings
pub mod Approval
pub mod Reviewed
