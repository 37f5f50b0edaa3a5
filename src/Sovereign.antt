-- ===== src/Sovereign.antt =====
-- The sovereign network of src/sovereign: signed envelopes, the task board that is derived from a
-- set of them, and the internal reward accounting.
pub mod Envelope
pub mod Json
pub mod Crypto
pub mod Signing
pub mod Schema
pub mod Board
pub mod Ingest
pub mod Rewards
pub mod Ledger
pub mod Bundle
pub mod Node
mod Tests
