-- ===== src/Pool.antt =====
-- The shielded pool contract (contracts/pool).
pub mod Merkle
pub mod Types
pub mod Storage
pub mod Amount
pub mod Settle
pub mod Contract
pub mod Invariant
pub mod Steps
pub mod Guards
