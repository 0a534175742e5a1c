-- ===== src/Internal.antt =====
-- Package internal: the check of submitted code (internal/sanitize.go).
pub mod Sanitize
