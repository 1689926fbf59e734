-- ===== src/Platform.antt =====
-- apps/backend/app/platform: the users, their roles and sessions, and the audit of what they do.
pub mod Models
pub mod Authorization
pub mod CommandGateway
pub mod LoginThrottle
pub mod WebSocketRegistry
pub mod Sanitization
pub mod AuditIdentity
pub mod Store
pub mod Rows
pub mod Database
pub mod Reconciliation
pub mod Admin
pub mod AuditFallback
pub mod AuditQuery
pub mod Sessions
mod Examples
