-- ===== src/Indexer.antt =====
-- The indexer, which reads the contracts' events and recomputes their trees (services/indexer/src).
pub mod Tree
pub mod Event
pub mod Position
pub mod Store
pub mod Ingest
pub mod Verify
pub mod Seed
pub mod Rpc
