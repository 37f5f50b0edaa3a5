-- ===== src/P2p.antt =====
-- src/p2p: the quorum of co-executors over the result of a task.
pub mod Quorum
pub mod Peers
