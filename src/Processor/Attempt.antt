-- ===== src/Processor/Attempt.antt =====
-- One attempt: `store` of relayer/src/intent/intent.processor.ts, from its steps.
use bosphor.Base.{ℕ, String, Option, none, some, ◌&&◌, not, if◌then◌else◌, str_eq, suc}
use bosphor.Base.Result.{ok}
use bosphor.Staged.Types.{StagedIntentRow, UploadResult}
use bosphor.Staged.Progress.{free_bytes, mark_done}
use bosphor.Lifecycle.{IntentCommitment, no_details, received, stored_walrus, recorded_sui}
use bosphor.Ledger.{already_recorded, record_completed_store, CompletedStore}
use bosphor.Processor.World.{
  M, Env, Config, Event, ◌>>=◌, ◌>>◌, pure, emit, write, track_hop, BreakEvenDecision,
}
use bosphor.Processor.Store.{
  committed_blob_id, verify_blob_id, resolve_epochs, guard, upload_step, record_step,
}
use bosphor.Processor.Return.{return_step}

-- An early `return`: the rest runs only if the step answers.
abbrev pub unless_stopped : {U A : Type 0} → (A → M U (Unit {0})) → Option A → M U (Unit {0})
unless_stopped k none = pure tt
unless_stopped k (some a) = k a

abbrev pub or_stop : {U A : Type 0} → M U (Option A) → (A → M U (Unit {0})) → M U (Unit {0})
or_stop m k = m >>= unless_stopped k

module _ {U : Type 0} (config : Config) (env : Env U) (row : StagedIntentRow) (sender : String)
    (commitment : Option IntentCommitment) where
  abbrev pub completed : UploadResult → String → CompletedStore
  completed up digest = record {
    row = row;
    sender = some sender;
    committed_blob_id = committed_blob_id config env row sender commitment;
    walrus_blob_id = some up.walrus_blob_id;
    walrus_object_id = some up.walrus_object_id;
    end_epoch = some up.end_epoch;
    store_digest = some digest;
  }

  -- `recordCompletedStore`, which never throws.
  unfoldable pub record_completed : UploadResult → String → M U (Unit {0})
  record_completed up digest w =
      let b =
        (record_completed_store config.network (env.time w.reads) env.ledger_up env.ledger_flags
          (completed up digest) (record { ledger = w.ledger; table = w.table })).1 in
      (ok tt, record w { ledger = b.ledger; table = b.table; reads = suc w.reads })

  -- Step 3b: the ops ledger, unless it has this store.
  unfoldable pub ledger_step : UploadResult → String → M U (Unit {0})
  ledger_step up digest =
      if not row.ledgered && env.ledger_installed then record_completed up digest else pure tt

  abbrev pub book : Option (BreakEvenDecision U) → M U (Unit {0})
  book none = pure tt
  book (some d) = emit (Event.completion_booked row.intent_id d.escrow_usd d.cost_usd)

  -- Steps 4 to 6, and the booking.
  unfoldable pub finish : UploadResult → Option (BreakEvenDecision U) → M U (Unit {0})
  finish up decision = do
    write env (λ now. free_bytes now row.intent_id)
    return_step config env row up
    write env (λ now. mark_done now row.intent_id)
    book decision

  -- Steps 3 and 3b.
  unfoldable pub settle : UploadResult → Option (BreakEvenDecision U) → M U (Unit {0})
  settle up decision = do
    digest ← record_step config env row sender commitment up
    track_hop env row.intent_id recorded_sui (record no_details {
      tx_hash = if str_eq digest already_recorded then none else some digest;
    })
    ledger_step up digest
    finish up decision

  -- From the spend on.
  unfoldable pub spend : ℕ → Option (BreakEvenDecision U) → M U (Unit {0})
  spend epochs decision = do
    emit Event.wal_ensured
    track_hop env row.intent_id received
        (record no_details { sender = some sender; tx_hash = row.delivery_digest })
    up ← upload_step config env row sender commitment epochs
    track_hop env row.intent_id stored_walrus (record no_details {
      blob_id = some up.walrus_blob_id;
      sui_object_id = some up.walrus_object_id;
      end_epoch = some up.end_epoch;
    })
    settle up decision

  unfoldable pub store : M U (Unit {0})
  store = or_stop (verify_blob_id config env row sender commitment) λ _.
      or_stop (resolve_epochs config env row sender commitment) λ epochs.
        or_stop (guard config env row sender commitment epochs) λ decision. spend epochs decision
