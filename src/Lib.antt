-- ===== src/Lib.antt =====
-- The Bosphor relayer (relayer/src). An origin-chain intent commits to a blob by its id, size,
-- deadline and storage epochs. The relayer takes the bytes over HTTP, waits for the intent on Sui,
-- stores the blob on Walrus, records it on Sui and returns a proof to the origin chain, once per
-- intent and over restarts, timeouts and several processes. The development models the parts that
-- decide this.
--
-- Base and its children: the names that the other files share; Boolean tests, lists, results.
--
-- Staged models the durable queue (relayer/src/staged): Staged/Types has the columns and the types
-- of staged-intent.types.ts, Staged/Table what an SQL statement does to the list of rows, and
-- Staged/Store (upsertBytes, markReceived, claimForByteRecovery), Staged/Claim (drainDue),
-- Staged/Progress (the persist and mark methods, reschedule, get) and Staged/Reap (expireDue,
-- expireUnreceived, purgeTerminal, stats, and reap of staged-reaper.service.ts) the store's
-- methods. Each takes the clock's reading and the table and returns its result and the table; a
-- statement is atomic. upsertBytes and markReceived ask a second query why a write was refused:
-- `upsert_then` and `received_then` take what that finds, and `upsert_bytes` and `mark_received`
-- are the case with nothing in between. Staged/Admission, Settled, Lease and Retention hold the
-- proofs. Staged.Settled.Step is what other parts do to the queue between two steps of an attempt's
-- owner.
--
-- Processor models relayer/src/intent/intent.processor.ts. Processor/World is the state of an
-- attempt (queue, feed, ledger, trace of outside effects, number of clock readings), the answers of
-- the outside services (Env: Walrus, Sui, LayerZero, EVM, Solana, escrow reader, guard; each call
-- may fail), and the operations from which attempts are written. Processor/Store, Return and
-- Attempt are `store` step by step, Processor/Run is `runStore`. A timeout does not stop the work,
-- so Processor.Run.Race says whether the work ends in time, or after the failure was handled, or
-- before it. Processor/Tick is `tick`: which of the claimed rows it starts. Processor/Engine is
-- what keeps ticks, wakes, sweeps and running stores apart, with an event for each call, answer and
-- end that may come next. Processor/Recovery is `recoverMissingBytes` and `onReceived`. Dead-letter
-- messages are abridged, metrics and logs left out. Each statement of the queue in an attempt may
-- be refused, and then has changed nothing; where that is `persistUpload`, the trace notes it
-- (`upload_unrecorded`), since the upload is then not known to the row. Processor/Triple has one
-- rule for each way to build an attempt; Processor/Outcome, Processor/Spend, Processor/Run/Retry,
-- Queue and Once and Processor/Tick/Ready hold the proofs.
--
-- Lifecycle models the feed's hop merge and its two stores (relayer/src/lifecycle;
-- Lifecycle/Postgres is pg-intent-lifecycle.store.ts, where a report reads its row before it writes
-- it), Ledger the ops ledger (relayer/src/ledger), Walrus/StoreEpochs the storage durations and
-- Walrus/WalCost the cost calculator (relayer/src/walrus), Ingest the HTTP ingest
-- (relayer/src/ingest), which reads the feed and writes the queue, and RateLimit the limiter and
-- its middleware (relayer/src/api/rate-limit.ts, and parseAppId of app-id.ts there).
--
-- Sui models the checkpoint poll (relayer/src/chain/sui/sui-checkpoint.service.ts), which feeds
-- `onReceived`: Sui/Event the events and their reading, Sui/Checkpoint the cursor and the passes; a
-- `Pass` holds the outside's answers during one turn of the loop. Sui/Lz is sui-lz.service.ts
-- there: Sui/Lz/Checks what it checks on Sui, Sui/Lz/Ptb the two transactions, Sui/Lz the calls
-- with their caches. Evm/Poll and Evm/Watcher model how submissions and executions on EVM reach the
-- feed (`pollLifecycleEvents` and `bootstrapBlockNumber` of relayer/src/chain/evm/evm.service.ts,
-- and evm-lifecycle.watcher.ts there), Solana the same for Solana (solana.service.ts and
-- solana-lifecycle.watcher.ts of relayer/src/chain/solana); both use Lifecycle/Track, the calls of
-- the feed that may fail. Settlement models the never-lose-money accounting over an abstract record
-- of doubles (Settlement/Dollars): Settlement/Guard is relayer/src/pricing/break-even-guard.ts with
-- pricing-math.ts and `check` of relayer/src/settlement/break-even-guard.service.ts, which the
-- processor asks, and Settlement/PnlLedger is pnl-ledger.ts and settlement-reconciler.service.ts,
-- in which the processor books. Pricing models what a store costs the user over the same doubles
-- (relayer/src/pricing): Pricing/Oracle is price-oracle.ts, Pricing/Quote quote-engine.ts and
-- Pricing/QuoteService quote.service.ts; of a price, the quote and the guard read the dollars
-- alone. Evm/NonceConflict and Evm/Confirm model the delivery of a confirmation
-- (relayer/src/chain/evm/nonce-conflict.ts, and `sendConfirmExecution` of evm.service.ts there),
-- and Walrus/TopUp the refill of WAL (relayer/src/walrus/wal-topup.service.ts). Codec models the
-- wire formats: Codec/Commitment sdk/src/commitment-codec.ts on byte arrays (Codec/Bytes),
-- Codec/Solana the event decoder of relayer/src/chain/solana/solana-intent.codec.ts, and
-- Codec/BlobId relayer/src/common/walrus-blob-id.ts. `Buffer`'s codecs and the hash are parameters
-- there.
--
-- Numbers are naturals: sizes, epochs and times stay far below 2^53, where the numbers of the
-- source are exact, and bigints are not negative there. No definition needs fuel: every loop is
-- over a list or counts down, as the start-up probe's eight attempts do. Amounts in dollars are of
-- an abstract type, and what is asked of it (`IsRounded`, `IsMonotone`) is true of doubles;
-- Settlement/Endless has it of amounts with infinity and NaN. No stored text is empty (a truth test
-- of the source would take it for missing). In the queue and the processor, the blob-id codec is an
-- argument.
--
-- Not modelled: the other chain adapters, the read of LayerZero's fee on Solana, configuration,
-- metrics and the HTTP framework, which are I/O or glue; the rest of the SDK, the contracts and the
-- operational tools are other programs.
pub mod Base
pub mod Staged
pub mod Walrus
pub mod Lifecycle
pub mod Ledger
pub mod Processor
pub mod Ingest
pub mod RateLimit
pub mod Codec
pub mod Sui
pub mod Settlement
pub mod Evm
pub mod Solana
pub mod Pricing
