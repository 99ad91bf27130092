-- ===== src/Evm/Poll.antt =====
-- `bootstrapBlockNumber` and `pollLifecycleEvents` of relayer/src/chain/evm/evm.service.ts. The calls of
-- the provider and the contract's log decoder are answers of the outside.
use bosphor.Base.{
  ℕ, String, zero, suc, ◌+◌, ◌-◌, ◌*◌, Option, none, some, List, [], ◌∷◌, ◌++◌, if◌then◌else◌, ltb,
  min,
}
use mathlib.Core.Option as Option
use bosphor.Sui.Checkpoint.{max_backoff_ms}

-- Blocks to stay behind the head.
abbrev pub evm_head_lag : ℕ
evm_head_lag = 3

-- The arguments of an `IntentSubmitted` log that are read; the deadline is in seconds.
pub record SubmittedArgs : Type 0 where
  pub intent_id : String
  pub sender : String
  pub blob_id : String
  pub size : ℕ
  pub deadline : ℕ

-- A log, with its parsed arguments if it parses.
pub record Log (Args : Type 0) : Type 0 where
  pub args : Option Args
  pub transaction_hash : String

pub record SubmittedEvent : Type 0 where
  pub intent_id : String
  pub sender : String
  pub blob_id : String
  pub size : ℕ
  pub deadline_ms : ℕ
  pub tx_hash : String

pub record ExecutedEvent : Type 0 where
  pub intent_id : String
  pub tx_hash : String

pub record EvmLifecycleEvents : Type 0 where
  pub submitted : List SubmittedEvent
  pub executed : List ExecutedEvent
  pub new_from_block : ℕ

-- The answers during one poll: the head, and the logs from one block to another; none is a failure.
pub record Rpc : Type 0 where
  pub block_number : Option ℕ
  pub submitted_logs : ℕ → ℕ → Option (List (Log SubmittedArgs))
  pub executed_logs : ℕ → ℕ → Option (List (Log String))

abbrev pub submitted_event : SubmittedArgs → String → SubmittedEvent
submitted_event args tx_hash = record {
  intent_id = args.intent_id;
  sender = args.sender;
  blob_id = args.blob_id;
  size = args.size;
  deadline_ms = args.deadline * 1000;
  tx_hash = tx_hash;
}

-- The logs that parse, in order, as events.
module _ {Args Event : Type 0} (event : Args → String → Event) where
  abbrev pub read_log : Option Args → String → List Event
  read_log none tx_hash = []
  read_log (some args) tx_hash = event args tx_hash ∷ []

  unfoldable pub read_logs : List (Log Args) → List Event
  read_logs [] = []
  read_logs (log ∷ logs) = read_log log.args log.transaction_hash ++ read_logs logs

unfoldable pub submitted_events : List (Log SubmittedArgs) → List SubmittedEvent
unfolding read_logs
submitted_events logs = read_logs submitted_event logs

unfoldable pub executed_events : List (Log String) → List ExecutedEvent
unfolding read_logs
executed_events logs =
    read_logs (λ intent_id tx_hash. record { intent_id = intent_id; tx_hash = tx_hash }) logs

abbrev nothing_new : ℕ → EvmLifecycleEvents
nothing_new from_block = record { submitted = []; executed = []; new_from_block = from_block }

-- The two queries, of which a failure of either ends the poll with nothing.
unfoldable pub both_logs :
    Option (List (Log SubmittedArgs)) → Option (List (Log String)) → ℕ → ℕ → EvmLifecycleEvents
unfolding submitted_events executed_events
both_logs (some submitted) (some executed) from_block latest_block = record {
  submitted = submitted_events submitted;
  executed = executed_events executed;
  new_from_block = latest_block + 1;
}
both_logs none executed from_block latest_block = nothing_new from_block
both_logs (some submitted) none from_block latest_block = nothing_new from_block

-- The guard says that `from_block > head - EVM_HEAD_LAG`, where the difference may be negative.
unfoldable pub poll_below : Rpc → ℕ → ℕ → EvmLifecycleEvents
unfolding both_logs
poll_below rpc from_block head =
    let latest_block = head - evm_head_lag in
    if ltb head (from_block + evm_head_lag)
    then nothing_new from_block
    else both_logs (rpc.submitted_logs from_block latest_block)
        (rpc.executed_logs from_block latest_block) from_block latest_block

-- None if the poll throws.
unfoldable pub poll_lifecycle_events : Rpc → ℕ → Option EvmLifecycleEvents
unfolding poll_below
poll_lifecycle_events rpc from_block =
    Option.map (λ head. poll_below rpc from_block head) rpc.block_number

abbrev pub evm_bootstrap_backoff_base_ms : ℕ
evm_bootstrap_backoff_base_ms = 1000

abbrev pub evm_bootstrap_max_attempts : ℕ
evm_bootstrap_max_attempts = 8

-- What a probe of the head gives.
pub data Probe : Type 0 where
  head : ℕ → Probe
  transient fatal : Probe

-- The attempts that may follow this one, its number, and the wait after it; with the head, or none
-- if the error is thrown, come the waits.
unfoldable pub probe_from : (ℕ → Probe) → ℕ → ℕ → ℕ → Option ℕ × List ℕ
probe_from probes zero attempt backoff_ms = elim (probes attempt) [
  | Probe.head n ↦ (some n, [])
  | Probe.transient ↦ (none, [])
  | Probe.fatal ↦ (none, [])
]
probe_from probes (suc left) attempt backoff_ms = elim (probes attempt) [
  | Probe.head n ↦ (some n, [])
  | Probe.transient ↦
      let rest = probe_from probes left (suc attempt) (min (backoff_ms * 2) max_backoff_ms) in
      (rest.0, backoff_ms ∷ rest.1)
  | Probe.fatal ↦ (none, [])
]

unfoldable pub bootstrap_block_number : (ℕ → Probe) → Option ℕ × List ℕ
unfolding probe_from
bootstrap_block_number probes =
    probe_from probes (evm_bootstrap_max_attempts - 1) 1 evm_bootstrap_backoff_base_ms
