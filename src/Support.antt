-- ===== src/Support.antt =====
-- src/lib: what the services of a node share.
pub mod PlatformHealth
