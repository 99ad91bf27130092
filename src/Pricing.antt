-- ===== src/Pricing.antt =====
-- What a store costs the user: relayer/src/pricing/price-oracle.ts with its types, and quote-engine.ts with
-- quote.service.ts.
pub mod Oracle
pub mod Quote
pub mod QuoteService
pub mod Tests
