-- ===== src/Security.antt =====
-- core/security: who may do what.
pub mod Access
pub mod Authorization
mod Examples
