-- ===== src/Sovereign/Tests.antt =====
-- src/sovereign: the theorems applied to concrete boards, deliveries and ledgers.
mod Demo
mod Boards
mod Payments
mod Ledgers
mod Deliveries
mod Bundles
mod Signed
mod Voters
mod Nodes
mod Tables
