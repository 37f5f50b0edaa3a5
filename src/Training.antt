-- ===== src/Training.antt =====
-- src/training: the queue of training tasks of a node that is offline.
pub mod OfflineQueue
