-- ===== src/Sui/Checkpoint.antt =====
-- `SuiCheckpointService` of relayer/src/chain/sui/sui-checkpoint.service.ts. The callback is set, as it is
-- before streaming starts, and writing the cursor file does not fail.
pub mod Delivered
pub mod Caught
pub mod CatchUp
use bosphor.Base.{
  ℕ, String, zero, suc, ◌+◌, ◌-◌, ◌*◌, Bool, true, false, not, Option, none, some, List, [], ◌∷◌,
  ◌++◌, if◌then◌else◌, ltb, leb, min, or_else, length,
}
use bosphor.Base.Result.{Result, ok, err, ◌>>=◌}
use bosphor.Sui.Event.{SuiLzEvent, RawEvent, Transaction, Decoders, read_event}

abbrev pub poll_interval_ms : ℕ
poll_interval_ms = 5000

abbrev pub max_backoff_ms : ℕ
max_backoff_ms = 30000

-- What the service keeps: the cursor file (`none` if it cannot be read) and the backoff; the events
-- that the callback has taken, in order, and the sleeps are its trace.
pub record State : Type 0 where
  pub cursor : Option ℕ
  pub backoff_ms : ℕ
  pub delivered : List SuiLzEvent
  pub slept : List ℕ

-- The ledger service's answer for one checkpoint.
pub data Fetched : Type 0 where
  failed missing served : Fetched

-- One pass's outside: `getCheckpoint` of the Sui service (which may fail), the ledger service's answers,
-- whether the callback returns for the event that is the n-th to be taken, and whether `stop` was
-- called before a checkpoint's turn, and before a failure is caught.
pub record Pass : Type 0 where
  pub current : Option ℕ
  pub fetch : ℕ → Fetched
  pub takes : ℕ → Bool
  pub stopped_at : ℕ → Bool
  pub is_stopped : Bool

abbrev pub write_cursor : ℕ → State → State
write_cursor seq s = record s { cursor = some seq }

-- Whether a step threw, and the state that it leaves.
abbrev pub Outcome : Type 0
Outcome = Result Unit Unit × State

-- The next statement, which a throw skips.
abbrev pub and_then : Outcome → (State → Outcome) → Outcome
and_then (err thrown, s) next = (err thrown, s)
and_then (ok nothing, s) next = next s

module _ (decoders : Decoders) (lz_package_id : String) (chain : ℕ → List Transaction) where
  module _ (pass : Pass) where
    -- `await this.onEventCallback(lzEvent)`.
    unfoldable pub deliver : SuiLzEvent → State → Outcome
    deliver event s =
        if pass.takes (length s.delivered)
        then (ok tt, record s { delivered = s.delivered ++ (event ∷ []) })
        else (err tt, s)

    -- An event as it was read: a number that does not read throws.
    unfoldable pub process_event : Result String (Option SuiLzEvent) → State → Outcome
    unfolding deliver
    process_event (err thrown) s = (err tt, s)
    process_event (ok none) s = (ok tt, s)
    process_event (ok (some event)) s = deliver event s

    unfoldable pub process_events : String → List RawEvent → State → Outcome
    unfolding process_event read_event
    process_events digest [] s = (ok tt, s)
    process_events digest (raw ∷ events) s =
        and_then (process_event (read_event decoders lz_package_id digest raw) s)
          (λ t. process_events digest events t)

    unfoldable pub process_transactions : List Transaction → State → Outcome
    unfolding process_events
    process_transactions [] s = (ok tt, s)
    process_transactions (tx ∷ transactions) s =
        and_then (process_events (or_else tx.digest "") (or_else tx.events []) s)
          (λ t. process_transactions transactions t)

    unfoldable pub process_checkpoint : List Transaction → ℕ → State → Outcome
    unfolding process_transactions
    process_checkpoint transactions seq s =
        and_then (process_transactions transactions s) (λ t. (ok tt, write_cursor seq t))

    -- One turn of the loop of `backfill`: the ledger service's answer, and the checkpoint.
    unfoldable pub visit_one : Fetched → ℕ → State → Outcome
    unfolding process_checkpoint
    visit_one Fetched.failed seq s = (err tt, s)
    visit_one Fetched.missing seq s = (ok tt, s)
    visit_one Fetched.served seq s = process_checkpoint (chain seq) seq s

    -- The loop of `backfill`, with the number of checkpoints still to visit.
    unfoldable pub visit : ℕ → ℕ → State → Outcome
    unfolding visit_one
    visit zero seq s = (ok tt, s)
    visit (suc n) seq s =
        if pass.stopped_at seq
        then (ok tt, s)
        else and_then (visit_one (pass.fetch seq) seq s) (λ t. visit n (suc seq) t)

    -- `backfill`, with the current checkpoint if it could be read.
    unfoldable pub backfill : Option ℕ → ℕ → State → Outcome
    unfolding visit
    backfill none from_checkpoint s = (err tt, s)
    backfill (some current) from_checkpoint s =
        if leb current from_checkpoint
        then (ok tt, s)
        else visit (current - from_checkpoint) (suc from_checkpoint) s

    -- What the loop of `runCheckpointPoll` does after a pass.
    abbrev pub rest_after : Outcome → State
    rest_after (ok nothing, s) = record s {
      slept = s.slept ++ (poll_interval_ms ∷ []);
      backoff_ms = 1000;
    }
    rest_after (err thrown, s) = if pass.is_stopped then s else record s {
      slept = s.slept ++ (s.backoff_ms ∷ []);
      backoff_ms = min (s.backoff_ms * 2) max_backoff_ms;
    }

    -- One turn of the loop of `runCheckpointPoll`, from the cursor that it reads.
    unfoldable pub poll_from : Option ℕ → State → State
    unfolding backfill
    poll_from none s = rest_after (ok tt, s)
    poll_from (some cursor) s = rest_after (backfill pass.current cursor s)

    unfoldable pub poll : State → State
    unfolding poll_from
    poll s = poll_from s.cursor s

  unfoldable pub poll_all : List Pass → State → State
  unfolding poll
  poll_all [] s = s
  poll_all (pass ∷ passes) s = poll_all passes (poll pass s)

  -- Without a cursor, it starts at the current checkpoint, which may fail to be read.
  unfoldable pub init_cursor : Option ℕ → Option ℕ → State → Result Unit State
  init_cursor (some cursor) first s = ok (record s { backoff_ms = 1000 })
  init_cursor none none s = err tt
  init_cursor none (some current) s = ok (record (write_cursor current s) { backoff_ms = 1000 })

  -- `runCheckpointPoll` over the passes until `stop`.
  unfoldable pub run_checkpoint_poll : Option ℕ → List Pass → State → Result Unit State
  unfolding poll_all init_cursor
  run_checkpoint_poll first passes s = do t ← init_cursor s.cursor first s; ok (poll_all passes t)
