-- ===== src/Sui.antt =====
-- How the relayer follows Sui: relayer/src/chain/sui/sui-checkpoint.service.ts.
pub mod Event
pub mod Checkpoint
pub mod Lz
pub mod Tests
