-- ===== src/Processor.antt =====
-- The durable store queue's driver, relayer/src/intent/intent.processor.ts.
pub mod World
pub mod Store
pub mod Return
pub mod Attempt
pub mod Triple
pub mod Frame
pub mod Outcome
pub mod Spend
pub mod Tick
pub mod Engine
pub mod Recovery
pub mod Run
pub mod Tests
