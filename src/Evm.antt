-- ===== src/Evm.antt =====
-- The relayer's side of the EVM adapter (relayer/src/chain/evm): the sends, of nonce-conflict.ts and
-- evm.service.ts, and the watch of its logs, of evm.service.ts and evm-lifecycle.watcher.ts.
pub mod NonceConflict
pub mod Confirm
pub mod Resends
pub mod Poll
pub mod Watcher
pub mod Tests
