-- ===== src/Processor/Return.antt =====
-- The return leg of relayer/src/intent/intent.processor.ts: `returnToEvm`, `returnToSolana`, and
-- the step of `store` that calls them and tags their failure.
use bosphor.Base.{ℕ, String, Bool, ◌*◌, ◌/◌, Option, none, some, false, if◌then◌else◌, ◌==◌}
use bosphor.Staged.Types.{StagedIntentRow, UploadResult}
use bosphor.Staged.Progress.{mark_returned}
use bosphor.Lifecycle.{HopDetails, no_details, proof_sent, confirmed}
use bosphor.Processor.World.{
  M, Env, Config, Event, plain, post, ◌>>=◌, ◌>>◌, pure, throw, call, catch, emit, write, track_hop,
}
use bosphor.Processor.Store.{message}

abbrev pub tx_details : String → HopDetails
tx_details tx = record no_details { tx_hash = some tx }

-- `(quotedFee * 11n) / 10n`.
unfoldable pub buffered_fee : ℕ → ℕ
buffered_fee quoted = quoted * 11 / 10

module _ {U : Type 0} (config : Config) (env : Env U) (id : String) (up : UploadResult) where
  -- The LayerZero send with the proof, to `eid`.
  unfoldable pub send_proof : ℕ → M U (Unit {0})
  send_proof eid = do
    quoted ← call (env.quote_lz_fee id up.walrus_blob_id up.end_epoch eid)
    let fee = buffered_fee quoted
    digest ← call (env.lz_send_proof id up.walrus_blob_id up.end_epoch eid fee)
    emit (Event.proof_sent id eid fee)
    track_hop env id proof_sent (tx_details digest)

  -- The owner's confirmExecution with the same proof.
  unfoldable pub confirm_evm : M U (Unit {0})
  confirm_evm = do
    field ← call (env.field_of_blob_id up.walrus_blob_id)
    digest ← call (env.evm_confirm id field up.end_epoch)
    emit (Event.confirmed_by_owner id)
    track_hop env id proof_sent (tx_details digest)

  unfoldable pub return_to_evm : M U (Unit {0})
  return_to_evm = catch (send_proof config.evm_dst_eid) (λ _. confirm_evm)

  -- The owner's confirm_execution on Solana, which needs a signer.
  unfoldable pub confirm_solana : M U (Unit {0})
  confirm_solana =
      if env.solana_can_confirm
      then (do
        field ← call (env.field_of_blob_id up.walrus_blob_id)
        digest ← call (env.solana_confirm id field up.end_epoch)
        emit (Event.confirmed_by_owner id)
        track_hop env id proof_sent (tx_details digest)
        track_hop env id confirmed (tx_details digest))
      else throw (plain "Solana-origin return leg requires a Solana signer")

  unfoldable pub return_to_solana : M U (Unit {0})
  return_to_solana = catch (send_proof config.solana_src_eid) (λ _. confirm_solana)

-- `row.srcEid === this.solanaSrcEid`.
abbrev pub is_eid : Option ℕ → ℕ → Bool
is_eid none eid = false
is_eid (some n) eid = n == eid

module _ {U : Type 0} (config : Config) (env : Env U) (row : StagedIntentRow)
    (up : UploadResult) where
  unfoldable pub return_leg : M U (Unit {0})
  return_leg =
      if is_eid row.src_eid config.solana_src_eid
      then return_to_solana config env row.intent_id up
      else return_to_evm config env row.intent_id up

  -- Step 5: a failure here is of the phase `post`.
  unfoldable pub return_step : M U (Unit {0})
  return_step = if row.returned then pure tt else do
    catch return_leg (λ e. throw (post (message e)))
    write env (λ now. mark_returned now row.intent_id)
