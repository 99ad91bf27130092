-- ===== src/Staged.antt =====
-- The durable store queue, relayer/src/staged/.
pub mod Types
pub mod Table
pub mod Store
pub mod Claim
pub mod Progress
pub mod Reap
pub mod Admission
pub mod Settled
pub mod Lease
pub mod Retention
pub mod Tests
