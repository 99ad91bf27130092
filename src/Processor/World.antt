-- ===== src/Processor/World.antt =====
-- What a store attempt of relayer/src/intent/intent.processor.ts reads and writes: the relayer's own
-- tables as state, the outside services as an `Env` of answers, and the trace of what was sent to
-- them. An attempt is a function of the state that returns or throws; the state comes back in both
-- cases. Every outside call may fail, and so may every statement of the queue, which then has changed
-- nothing.
use bosphor.Base.{ℕ, String, Bool, Option, none, some, List, ◌∷◌, if◌then◌else◌, suc}
use bosphor.Base.Result.{Result, ok, err}
use bosphor.Staged.Types.{Bytes}
use bosphor.Staged.Table.{Table}
use bosphor.Lifecycle.{IntentHop, HopDetails, Records, record_hop}
use bosphor.Ledger.{Ledger}
use bosphor.Walrus.StoreEpochs.{StoreEpochsPolicy, Number}

-- An amount of the origin chain's native token in escrow (`EscrowInfo`).
pub data OriginToken : Type 0 where
  eth sol : OriginToken

pub record EscrowInfo : Type 0 where
  pub escrow_native : ℕ
  pub origin_token : OriginToken

-- `BreakEvenCheck`, the guard's question.
pub record BreakEvenCheck : Type 0 where
  pub escrow_native : ℕ
  pub origin_token : OriginToken
  pub size_bytes : ℕ
  pub epochs : ℕ
  pub return_lz_fee_mist : ℕ
  pub sui_gas_mist : ℕ

-- The guard's answer, with its two amounts in US dollars of an abstract type.
pub record BreakEvenDecision (Usd : Type 0) : Type 0 where
  pub proceed : Bool
  pub escrow_usd : Usd
  pub cost_usd : Usd
  pub reason : String

-- `WalrusBlobInfo`; the metered cost is not used by the attempt.
pub record WalrusBlobInfo : Type 0 where
  pub blob_id : String
  pub sui_object_id : String
  pub end_epoch : ℕ

-- The settings that the constructor reads.
pub record Config : Type 0 where
  pub evm_dst_eid : ℕ
  pub solana_src_eid : ℕ
  pub store_concurrency : ℕ
  pub batch_size : ℕ
  pub backoff_base_ms : ℕ
  pub backoff_cap_ms : ℕ
  pub max_store_attempts : ℕ
  pub return_max_attempts : ℕ
  pub lease_ms : ℕ
  pub break_even_enabled : Bool
  pub guard_return_lz_fee_mist : ℕ
  pub guard_sui_gas_mist : ℕ
  pub epochs : StoreEpochsPolicy
  pub network : String

-- The answers of the outside services to one attempt. The queue's statements are refused by the
-- number of clock readings before them, `persistUpload` and `fetchBytes` on their own. `none` for `break_even` and `escrow_reader`
-- says that they are not installed.
pub record Env (Usd : Type 0) : Type 0 where
  pub time : ℕ → ℕ
  pub blob_id_matches : String → String → Bool
  pub field_of_blob_id : String → Result String String
  pub read_committed_epochs : String → Result String ℕ
  pub walrus_max_epochs : Result String Number
  pub escrow_reader : Option (String → Option ℕ → Result String (Option EscrowInfo))
  pub break_even : Option (BreakEvenCheck → Result String (BreakEvenDecision Usd))
  pub upload : Bytes → ℕ → Result String WalrusBlobInfo
  pub execute_store : String → String → String → ℕ → Result String String
  pub wait_for_transaction : String → Result String (Unit {0})
  pub quote_lz_fee : String → String → ℕ → ℕ → Result String ℕ
  pub lz_send_proof : String → String → ℕ → ℕ → ℕ → Result String String
  pub evm_confirm : String → String → ℕ → Result String String
  pub solana_can_confirm : Bool
  pub solana_confirm : String → String → ℕ → Result String String
  pub hop_recorded : IntentHop → Bool
  pub queue_refuses : ℕ → Option String
  pub persist_refused : Option String
  pub fetch_refused : Option String
  pub ledger_installed : Bool
  pub ledger_up : Bool
  pub ledger_flags : Bool

-- What an attempt does outside, and what it books. `upload_unrecorded` is no call: it notes that
-- `persistUpload` was refused after an upload.
pub data Event (Usd : Type 0) : Type 0 where
  wal_ensured : Event Usd
  uploaded : String → ℕ → Event Usd
  upload_unrecorded : String → Event Usd
  executed : String → Event Usd
  proof_sent : String → ℕ → ℕ → Event Usd
  confirmed_by_owner : String → Event Usd
  completion_booked : String → Usd → Usd → Event Usd
  skip_booked : String → Event Usd
  processed : Bool → Event Usd
  dead_letter : Bool → Event Usd

pub record World (Usd : Type 0) : Type 0 where
  pub table : Table
  pub feed : Records
  pub ledger : Ledger
  pub trace : List (Event Usd)
  pub reads : ℕ

-- `StoreError` of the phase `post`, `TimeoutError`, and any other error.
pub data Failure : Type 0 where
  plain post : String → Failure
  timeout : Failure

abbrev pub M : Type 0 → Type 0 → Type 0
M Usd A = World Usd → Result Failure A × World Usd

abbrev pub continue :
    {U A B : Type 0} → Result Failure A → (A → M U B) → World U → Result Failure B × World U
continue (ok a) f w = f a w
continue (err e) f w = (err e, w)

infixl 5 ◌>>=◌ ◌>>◌
unfoldable pub ◌>>=◌ : {U A B : Type 0} → M U A → (A → M U B) → M U B
◌>>=◌ m f w = let (r, w') = m w in continue r f w'

abbrev pub ◌>>◌ : {U A B : Type 0} → M U A → M U B → M U B
m >> k = m >>= λ _. k

unfoldable pub pure : {U A : Type 0} → A → M U A
pure a w = (ok a, w)

unfoldable pub throw : {U A : Type 0} → Failure → M U A
throw e w = (err e, w)

-- An awaited outside call: its error is thrown as it is.
unfoldable pub call : {U A : Type 0} → Result String A → M U A
call (ok a) w = (ok a, w)
call (err e) w = (err (plain e), w)

-- `try { m } catch { h }`.
abbrev pub caught :
    {U A : Type 0} → (Failure → M U A) → Result Failure A → World U → Result Failure A × World U
caught h (ok a) w = (ok a, w)
caught h (err e) w = h e w

unfoldable pub catch : {U A : Type 0} → M U A → (Failure → M U A) → M U A
catch m h w = let (r, w') = m w in caught h r w'

-- Work that goes on, whatever the handling `m` before it came to.
unfoldable pub also : {U A B : Type 0} → M U A → M U B → M U A
also m n w = let (r, w') = m w in (r, (n w').1)

unfoldable pub emit : {U : Type 0} → Event U → M U (Unit {0})
emit e w = (ok tt, record w { trace = e ∷ w.trace })

-- `Date.now()`: the next reading of the clock.
unfoldable pub now : {U : Type 0} → Env U → M U ℕ
now env w = (ok (env.time w.reads), record w { reads = suc w.reads })

-- A query of the queue that stamps the row with the time, unless it is refused.
abbrev pub written :
    {U : Type 0}
    → Option String
    → ℕ
    → (ℕ → Table → Table)
    → World U
    → Result Failure (Unit {0}) × World U
written none at f w = (ok tt, record w { table = f at w.table; reads = suc w.reads })
written (some thrown) at f w = (err (plain thrown), record w { reads = suc w.reads })

unfoldable pub write : {U : Type 0} → Env U → (ℕ → Table → Table) → M U (Unit {0})
write env f w = written (env.queue_refuses w.reads) (env.time w.reads) f w

-- `persistUpload`, whose refusal the trace notes.
abbrev pub persisted :
    {U : Type 0}
    → Option String
    → String
    → ℕ
    → (ℕ → Table → Table)
    → World U
    → Result Failure (Unit {0}) × World U
persisted none id at f w = (ok tt, record w { table = f at w.table; reads = suc w.reads })
persisted (some thrown) id at f w = (
  err (plain thrown),
  record w { trace = Event.upload_unrecorded id ∷ w.trace; reads = suc w.reads },
)

unfoldable pub persist : {U : Type 0} → Env U → String → (ℕ → Table → Table) → M U (Unit {0})
persist env id f w = persisted env.persist_refused id (env.time w.reads) f w

-- A query that reads the queue's table.
abbrev pub answered : {U A : Type 0} → Option String → A → World U → Result Failure A × World U
answered none a w = (ok a, w)
answered (some thrown) a w = (err (plain thrown), w)

unfoldable pub read_table : {U A : Type 0} → Option String → (Table → A) → M U A
read_table refused f w = answered refused (f w.table) w

-- `trackHop`: a failure of the feed is swallowed.
unfoldable pub track_hop : {U : Type 0} → Env U → String → IntentHop → HopDetails → M U (Unit {0})
track_hop env id hop d w =
    if env.hop_recorded hop
    then (
      ok tt,
      record w { feed = record_hop (env.time w.reads) id hop d w.feed; reads = suc w.reads },
    )
    else (ok tt, w)
