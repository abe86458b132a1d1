-- ===== src/Login.antt =====
-- internal/core/panel/auth.go: the sessions of the panel, and what slows down guessing a password.
pub mod Throttle
pub mod Sessions
