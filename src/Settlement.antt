-- ===== src/Settlement.antt =====
-- The never-lose-money accounting: relayer/src/pricing/break-even-guard.ts and pricing-math.ts, and
-- relayer/src/settlement (break-even-guard.service.ts, pnl-ledger.ts, settlement-reconciler.service.ts).
pub mod Dollars
pub mod Guard
pub mod PnlLedger
pub mod Covers
pub mod NeverLose
pub mod FirstEntry
pub mod Endless
pub mod Tests
