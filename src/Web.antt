-- ===== src/Web.antt =====
-- internal/web: the handlers and the background jobs over the store.
pub mod Portal
pub mod Maintenance
pub mod Dormancy
pub mod Guard
pub mod Conflicts
pub mod Forms
pub mod Handlers
pub mod Peers
pub mod Routes
