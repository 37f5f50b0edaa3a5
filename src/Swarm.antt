-- ===== src/Swarm.antt =====
-- src/swarm: the checks of the tasks that a node accepts.
pub mod Validation
pub mod Reader
