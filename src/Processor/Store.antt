-- ===== src/Processor/Store.antt =====
-- `store` of relayer/src/intent/intent.processor.ts, step by step. A step that ends the attempt
-- early (the row is dead-lettered) answers `none`.
use text.Mathlib.Text.{find?}
use bosphor.Base.{
  ℕ, String, Bool, Option, none, some, ◌&&◌, ◌||◌, not, if◌then◌else◌, or_else, is_some, max,
}
use bosphor.Base.Result.{Result, ok, err}
use bosphor.Staged.Types.{StagedIntentRow, Bytes, UploadResult}
use bosphor.Staged.Progress.{fetch_bytes, persist_upload, persist_store, mark_dead}
use bosphor.Lifecycle.{IntentCommitment}
use bosphor.Ledger.{already_recorded}
use bosphor.Walrus.StoreEpochs.{
  StoreEpochsResolution, Number, natural, resolved, rejected, resolve, walrus_min_epochs,
}
use bosphor.Processor.World.{
  M, Env, Config, Event, Failure, plain, post, ◌>>=◌, ◌>>◌, pure, throw, call, catch, emit, write,
  persist, read_table, BreakEvenDecision, BreakEvenCheck, EscrowInfo, WalrusBlobInfo, timeout,
}

abbrev pub as_number : Option ℕ → Option Number
as_number none = none
as_number (some n) = some (natural n)

abbrev includes : String → String → Bool
includes text part = is_some (find? text part)

-- EIntentAlreadyExecuted, as the source reads it from the message.
unfoldable pub says_already_executed : String → Bool
says_already_executed text =
    includes text "execute_store" && (includes text ", 2)" || includes text "abort code: 2")

-- `String(err)`.
abbrev pub message : Failure → String
message (plain m) = m
message (post m) = m
message timeout = "store attempt timed out"

abbrev pub stored : WalrusBlobInfo → UploadResult
stored info = record {
  walrus_object_id = info.sui_object_id;
  walrus_blob_id = info.blob_id;
  end_epoch = info.end_epoch;
}

module _ {U : Type 0} (config : Config) (env : Env U) (row : StagedIntentRow) (sender : String)
    (commitment : Option IntentCommitment) where
  abbrev id : String
  id = row.intent_id

  -- 32 zero bytes in hexadecimal.
  abbrev pub zero_reference : String
  zero_reference = "0x0000000000000000000000000000000000000000000000000000000000000000"

  abbrev pub committed_blob_id : Option String
  committed_blob_id = elim commitment [
    | none ↦ row.committed_blob_id
    | some c ↦ some c.committed_blob_id
  ]

  abbrev pub is_committed : Bool
  is_committed =
      env.blob_id_matches (or_else row.blob_id "") (or_else committed_blob_id zero_reference)

  -- Step 1: the bytes' blob id must be the committed one.
  unfoldable pub verify_blob_id : M U (Option (Unit {0}))
  verify_blob_id = if is_committed then pure (some tt) else do
    write env (λ now. mark_dead now id "blob id does not match committed reference")
    pure none

  -- Step 1a: the committed epochs, from the row or else from Sui; a failed read counts as none.
  abbrev pub committed_epochs : Option ℕ
  committed_epochs = elim row.storage_epochs [
    | some n ↦ some n
    | none ↦ elim (env.read_committed_epochs id) [ ok n ↦ some n | err _ ↦ none ]
  ]

  -- A row that was uploaded before keeps what was bought; any other rejection ends the attempt.
  unfoldable pub take_resolution : StoreEpochsResolution → M U (Option ℕ)
  take_resolution (resolved epochs _) = pure (some epochs)
  take_resolution (rejected _) =
      if is_some row.walrus_object_id
      then pure (some (max (or_else committed_epochs 0) walrus_min_epochs))
      else do
        write env (λ now. mark_dead now id "storage epochs rejected")
        emit (Event.skip_booked id)
        pure none

  -- The duration that the blob is stored for.
  unfoldable pub resolve_epochs : M U (Option ℕ)
  resolve_epochs = do
    resolution ← call (resolve config.epochs env.walrus_max_epochs (as_number committed_epochs))
    take_resolution resolution

  -- Step 1b, once the escrow is read: go on only if the guard says so.
  unfoldable pub judge :
      (BreakEvenCheck → Result String (BreakEvenDecision U))
      → ℕ
      → Option EscrowInfo
      → M U (Option (Option (BreakEvenDecision U)))
  judge check epochs none = pure (some none)
  judge check epochs (some escrow) = do
    decision ← call (
        check (record {
          escrow_native = escrow.escrow_native;
          origin_token = escrow.origin_token;
          size_bytes = or_else row.size 0;
          epochs = epochs;
          return_lz_fee_mist = config.guard_return_lz_fee_mist;
          sui_gas_mist = config.guard_sui_gas_mist;
        }))
    if decision.proceed then pure (some (some decision)) else do
      write env (λ now. mark_dead now id "break-even guard skip")
      emit (Event.skip_booked id)
      pure none

  abbrev pub guard_with :
      Option (BreakEvenCheck → Result String (BreakEvenDecision U))
      → Option (String → Option ℕ → Result String (Option EscrowInfo))
      → ℕ
      → M U (Option (Option (BreakEvenDecision U)))
  guard_with none reader epochs = pure (some none)
  guard_with (some check) none epochs = pure (some none)
  guard_with (some check) (some reader) epochs = do
    escrow ← call (reader id row.src_eid)
    judge check epochs escrow

  -- Step 1b: the never-lose-money gate, before the spend.
  unfoldable pub guard : ℕ → M U (Option (Option (BreakEvenDecision U)))
  guard epochs =
      if config.break_even_enabled && not (is_some row.walrus_object_id)
      then guard_with env.break_even env.escrow_reader epochs
      else pure (some none)

  -- The upload itself, with the bytes that the row holds.
  unfoldable pub upload_bytes : ℕ → Option Bytes → M U UploadResult
  upload_bytes epochs none = throw (plain "ready row has no bytes to upload")
  upload_bytes epochs (some bytes) = do
    info ← call (env.upload bytes epochs)
    emit (Event.uploaded id epochs)
    let up = stored info
    persist env id (λ now. persist_upload now id up)
    pure up

  -- `fetchBytes`.
  unfoldable pub fetch : M U (Option Bytes)
  fetch = read_table env.fetch_refused (fetch_bytes id)

  -- By the object id of an earlier upload, if there was one.
  unfoldable pub upload_unless : Option String → ℕ → M U UploadResult
  upload_unless none epochs = do bytes ← fetch; upload_bytes epochs bytes
  upload_unless (some object) epochs = pure (record {
    walrus_object_id = object;
    walrus_blob_id = or_else row.walrus_blob_id "";
    end_epoch = or_else row.end_epoch 0;
  })

  -- Step 2: upload, unless an earlier attempt did.
  unfoldable pub upload_step : ℕ → M U UploadResult
  upload_step epochs = upload_unless row.walrus_object_id epochs

  abbrev pub deadline_ms : ℕ
  deadline_ms = or_else row.deadline (elim commitment [ none ↦ 0 | some c ↦ c.deadline ])

  -- execute_store and its confirmation; an abort that says "recorded before" is success.
  unfoldable pub execute : UploadResult → M U String
  execute up =
      catch
        (do
          digest ← call (env.execute_store id sender up.walrus_object_id deadline_ms)
          emit (Event.executed id)
          call (env.wait_for_transaction digest)
          pure digest)
        (λ e. if says_already_executed (message e) then pure already_recorded else throw e)

  -- By the digest of an earlier record, if there was one.
  unfoldable pub record_unless : Option String → UploadResult → M U String
  record_unless (some digest) up = pure digest
  record_unless none up = do
    digest ← execute up
    write env (λ now. persist_store now id digest)
    pure digest

  -- Step 3: record on Sui, unless an earlier attempt did.
  unfoldable pub record_step : UploadResult → M U String
  record_step up = record_unless row.store_digest up
