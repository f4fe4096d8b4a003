-- ===== src/Security.antt =====
-- Package security: the audit log and the command validator.
pub mod Audit
pub mod Patterns
pub mod Validator
