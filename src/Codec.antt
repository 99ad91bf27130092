-- ===== src/Codec.antt =====
-- The wire formats: sdk/src/commitment-codec.ts, relayer/src/chain/solana/solana-intent.codec.ts
-- and relayer/src/common/walrus-blob-id.ts.
pub mod Bytes
pub mod Commitment
pub mod Solana
pub mod BlobId
pub mod Tests
