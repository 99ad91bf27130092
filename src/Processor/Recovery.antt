-- ===== src/Processor/Recovery.antt =====
-- The byte-recovery sweep, `recoverMissingBytes` of relayer/src/intent/intent.processor.ts, and the
-- Sui event's handler `onReceived`. The blob-id codecs, the encoder and the aggregator are arguments.
use bosphor.Base.{
  if◌then◌else◌, str_eq, ℕ, String, Bool, ◌+◌, ◌*◌, ◌≤◌, ◌≡◌, refl, Option, none, some, List, [],
  ◌∷◌, arith, true, false, sum_by, or_else,
}
use bosphor.Base.Result.{Result, ok, err}
use bosphor.Staged.Types.{Row, Bytes, ByteRecoveryCandidate, ReceivedOutcome, UpsertOutcome}
use bosphor.Staged.Table.{Table, Keyed, update_where}
use bosphor.Staged.Store.{
  held, staged_bytes_total, upsert_bytes, mark_received, claim_for_byte_recovery,
  reschedule_byte_recovery, set_recovery,
}
use bosphor.Staged.Settled.{Step-Keyed, back_off, deliver_bytes}
use bosphor.Staged.Admission.{staged_bytes_total-upsert_bytes-le}
use bosphor.Sui.Event.{SuiLzEvent}
use bosphor.Lifecycle.{Records, IntentCommitment, get_commitment}
use bosphor.Ingest.{
  Limits, Taken, RejectReason, ingest, stage, with_commitment, answer, refused, blob_of,
}

abbrev pub is_recorded : ReceivedOutcome → Bool
is_recorded ReceivedOutcome.recorded = true
is_recorded ReceivedOutcome.missing = false
is_recorded (ReceivedOutcome.settled _) = false

-- Whether the processor is woken, and the queue; an event's deadline is in seconds.
unfoldable pub on_received : (String → String) → ℕ → SuiLzEvent → Table → Bool × Table
on_received u256_to_hex now e t =
    let (outcome, u) =
      mark_received now e.intent_id
        (record {
          src_eid = e.src_eid;
          committed_blob_id = u256_to_hex e.committed_blob_id;
          deadline = e.deadline * 1000;
          delivery_digest = if str_eq e.delivery_digest "" then none else some e.delivery_digest;
          storage_epochs = e.storage_epochs;
        })
        t in
    (is_recorded outcome, u)

module _ (limits : Limits) (encode_blob : Bytes → String) (blob_id_matches : String → String → Bool)
    (field_to_walrus_blob_id : String → Result String String)
    (fetch_blob_from_aggregator : String → Result String Bytes) (feed : Records)
    (backoff_ms : ℕ) where
  abbrev pub recovered : Option Table → Table → Table
  recovered o t = or_else o t

  abbrev pub ingest_fetched : ℕ → String → Result String Bytes → Table → Table
  ingest_fetched now id (err _) t = t
  ingest_fetched now id (ok bytes) t =
      recovered
        (ingest limits encode_blob blob_id_matches feed now id bytes none (staged_bytes_total t) now
          (some t)).staged
        t

  abbrev pub fetch_located : Result String String → Result String Bytes
  fetch_located (err e) = err e
  fetch_located (ok blob_id) = fetch_blob_from_aggregator blob_id

  -- One candidate: the backoff first, then the fetch and the ordinary ingest. The clock stands still
  -- for the length of a sweep.
  unfoldable pub recover_one : ℕ → ByteRecoveryCandidate → Table → Table
  recover_one now c t =
      ingest_fetched now c.intent_id (fetch_located (field_to_walrus_blob_id c.committed_blob_id))
        (reschedule_byte_recovery now c.intent_id (now + backoff_ms) t)

  unfoldable pub recover_all : ℕ → List ByteRecoveryCandidate → Table → Table
  recover_all now [] t = t
  recover_all now (c ∷ cs) t = recover_all now cs (recover_one now c t)

  unfoldable pub recover_missing_bytes : ℕ → ℕ → ℕ → Table → Table
  unfolding recover_all
  recover_missing_bytes now grace_ms batch_size t =
      recover_all now (claim_for_byte_recovery now grace_ms batch_size t) t

  -- The queue has unique keys and is within its cap.
  abbrev pub Within : Table → Type 0
  Within t = Keyed t × (staged_bytes_total t ≤ limits.max_staged_bytes)

  held-update_where :
      (p : Row → Bool) (now at : ℕ) (t : Table)
      → sum_by held (update_where p (set_recovery now at) t) ≡ sum_by held t
  held-update_where p now at [] = refl
  held-update_where p now at (r ∷ t) = ground (arith, held-update_where p now at t)

  reschedule-Within :
      (now at : ℕ) (id : String) (t : Table)
      → Within t
      → Within (reschedule_byte_recovery now id at t)
  unfolding staged_bytes_total reschedule_byte_recovery
  reschedule-Within now at id t (k, h) =
      (Step-Keyed (back_off t now id at) k, omega (arith, h, held-update_where _ now at t))

  upsert-Within :
      (now : ℕ) (id : String) (bytes : Bytes) (c : IntentCommitment) (t : Table)
      → Within t
      → Within
          (upsert_bytes now id
            (blob_of limits encode_blob blob_id_matches feed now id bytes none c)
            (some limits.max_staged_bytes)
            t).1
  upsert-Within now id bytes c t (k, h) = (
    Step-Keyed (deliver_bytes t now id _ _) k,
    staged_bytes_total-upsert_bytes-le now id _ limits.max_staged_bytes t k h,
  )

  module _ (now : ℕ) (id : String) (bytes : Bytes) (t : Table) (h : Within t) where
    answer-Within :
        (x : UpsertOutcome × Table)
        → Within x.1
        → Within (
            recovered (answer limits encode_blob blob_id_matches feed now id bytes none x).staged t)
    answer-Within (UpsertOutcome.accepted, u) k = k
    answer-Within (UpsertOutcome.terminal, u) k = k
    answer-Within (UpsertOutcome.backpressure, u) k = k

    checked-Within :
        (c : IntentCommitment) (o : Option RejectReason)
        → Within (
            recovered
              (elim o as (λ _. Taken) [
                | some reason ↦ refused reason (some t)
                | none ↦
                    stage limits encode_blob blob_id_matches feed now id bytes none now c (some t)
              ]).staged
              t)
    unfolding stage
    checked-Within c none = answer-Within _ (upsert-Within now id bytes c t h)
    checked-Within c (some reason) = h

    committed-Within :
        (o : Option IntentCommitment)
        → Within (
            recovered
              (with_commitment limits encode_blob blob_id_matches feed now id bytes none
                (staged_bytes_total t)
                now
                o
                (some t)).staged
              t)
    committed-Within none = h
    committed-Within (some c) = checked-Within c _

  ingest_fetched-Within :
      (now : ℕ) (id : String) (r : Result String Bytes) (t : Table)
      → Within t
      → Within (ingest_fetched now id r t)
  unfolding ingest
  ingest_fetched-Within now id (err e) t h = h
  ingest_fetched-Within now id (ok bytes) t h =
      committed-Within now id bytes t h (get_commitment id feed)

  recover_all-Within :
      (now : ℕ) (cs : List ByteRecoveryCandidate) (t : Table)
      → Within t
      → Within (recover_all now cs t)
  unfolding recover_all recover_one
  recover_all-Within now [] t h = h
  recover_all-Within now (c ∷ cs) t h = recover_all-Within now cs _ (
      ingest_fetched-Within now c.intent_id _ _
        (reschedule-Within now (now + backoff_ms) c.intent_id t h))

  -- A byte-recovery sweep keeps a queue with unique keys within its byte cap, whatever the aggregator
  -- serves for the candidates.
  pub recover_missing_bytes-Within :
      (now grace_ms batch_size : ℕ) (t : Table)
      → Within t
      → Within (recover_missing_bytes now grace_ms batch_size t)
  unfolding recover_missing_bytes
  recover_missing_bytes-Within now grace_ms batch_size t h =
      recover_all-Within now (claim_for_byte_recovery now grace_ms batch_size t) t h
