-- ===== src/Gateway.antt =====
-- src/gateway: the sessions of the gateway.
pub mod Sessions
