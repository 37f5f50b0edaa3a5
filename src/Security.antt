-- ===== src/Security.antt =====
-- src/security: the limit on failed logins, the slots of computations, and who may ask for a path.
pub mod LoginLimit
pub mod Compute
pub mod Surface
