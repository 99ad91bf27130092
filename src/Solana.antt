-- ===== src/Solana.antt =====
-- The relayer's side of the Solana adapter, relayer/src/chain/solana: the reads and the confirmation of
-- solana.service.ts, and the watch of the adapter's events by solana-lifecycle.watcher.ts.
pub mod Poll
pub mod Watcher
pub mod Tests
