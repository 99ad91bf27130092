-- ===== src/Walrus.antt =====
-- Walrus storage, relayer/src/walrus/.
pub mod StoreEpochs
pub mod WalCost
pub mod TopUp
pub mod Tests
