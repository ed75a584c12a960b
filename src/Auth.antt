-- ===== src/Auth.antt =====
-- src/features/authentication: one-time passwords, and logging in and out.
pub mod Otp
pub mod Service
