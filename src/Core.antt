-- ===== src/Core.antt =====
-- src/core: model failover and the event bus of a node.
pub mod Failover
pub mod EventBus
