-- ===== src/Sovereign/Node.antt =====
-- src/sovereign/node.ts: the class SovereignNode.
pub mod Peers
pub mod Limiter
pub mod Batches
pub mod Objects
pub mod Sends
pub mod Duties
pub mod Publisher
