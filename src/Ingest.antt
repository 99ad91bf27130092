-- ===== src/Ingest.antt =====
-- The ingest endpoint: `ingest` of relayer/src/ingest/intent-ingest.service.ts, and the answers of
-- relayer/src/ingest/ingest.controller.ts. The blob-id encoder and `blobIdMatches` are arguments.
pub mod Laws
pub mod Tests
use bosphor.Base.{
  ℕ, String, Bool, ◌+◌, ◌==◌, Option, none, some, true, false, not, if◌then◌else◌, ltb, length,
}
use bosphor.Staged.Types.{Bytes, StagedBytes, UpsertOutcome}
use bosphor.Staged.Table.{Table}
use bosphor.Staged.Store.{upsert_bytes}
use bosphor.Lifecycle.{
  IntentHop, IntentCommitment, Records, get_commitment, submitted, received, stored_walrus,
  recorded_sui, proof_sent, confirmed,
}

-- `IngestRejected['reason']`.
pub data RejectReason : Type 0 where
  unknown already_executed expired oversized wrong_size backpressure wrong_blob_id : RejectReason

pub data IngestResult : Type 0 where
  accepted : String → ℕ → IngestResult
  rejected : RejectReason → IngestResult

-- Any hop at or past `stored_walrus`.
abbrev pub is_executed : IntentHop → Bool
is_executed submitted = false
is_executed received = false
is_executed stored_walrus = true
is_executed recorded_sui = true
is_executed proof_sent = true
is_executed confirmed = true

pub record Limits : Type 0 where
  pub max_ingest_bytes : ℕ
  pub max_staged_bytes : ℕ

-- The result, the queue (if one is installed), and whether the processor was woken.
pub record Taken : Type 0 where
  pub result : IngestResult
  pub staged : Option Table
  pub woken : Bool

abbrev pub refused : RejectReason → Option Table → Taken
refused reason staged = record { result = rejected reason; staged = staged; woken = false }

-- The fast path, on the total that was read before the write: other writes may come in between.
abbrev pub is_over : ℕ → ℕ → ℕ → Option Table → Bool
is_over limit size seen none = false
is_over limit size seen (some t) = ltb limit (seen + size)

module _ (limits : Limits) (encode_blob : Bytes → String) (blob_id_matches : String → String → Bool)
    (feed : Records) (now : ℕ) (id : String) (bytes : Bytes) (app_id : Option String) where
  abbrev pub blob_of : IntentCommitment → StagedBytes
  blob_of c = record {
    bytes = bytes;
    blob_id = encode_blob bytes;
    size = length bytes;
    app_id = app_id;
    deadline = some c.deadline;
  }

  abbrev pub taken : Option Table → Bool → Taken
  taken staged woken = record {
    result = accepted (encode_blob bytes) (length bytes);
    staged = staged;
    woken = woken;
  }

  -- The checks before the write, in the source's order.
  unfoldable pub check : ℕ → IntentCommitment → Option Table → Option RejectReason
  check seen c staged =
      if is_executed c.status
      then some already_executed
      else if ltb c.deadline now
      then some expired
      else if ltb limits.max_ingest_bytes (length bytes)
      then some oversized
      else if not (length bytes == c.size)
      then some wrong_size
      else if is_over limits.max_staged_bytes (length bytes) seen staged
      then some backpressure
      else if not (blob_id_matches (encode_blob bytes) c.committed_blob_id)
      then some wrong_blob_id
      else none

  -- What the upsert's outcome becomes.
  abbrev pub answer : UpsertOutcome × Table → Taken
  answer (UpsertOutcome.accepted, u) = taken (some u) true
  answer (UpsertOutcome.terminal, u) = refused expired (some u)
  answer (UpsertOutcome.backpressure, u) = refused backpressure (some u)

  -- The durable write, with the authoritative cap.
  unfoldable pub stage : ℕ → IntentCommitment → Option Table → Taken
  stage at c none = taken none false
  stage at c (some t) = answer (upsert_bytes at id (blob_of c) (some limits.max_staged_bytes) t)

  abbrev pub with_commitment : ℕ → ℕ → Option IntentCommitment → Option Table → Taken
  with_commitment seen at none staged = refused unknown staged
  with_commitment seen at (some c) staged = elim (check seen c staged) [
    | some reason ↦ refused reason staged
    | none ↦ stage at c staged
  ]

  -- `now` is the clock at the deadline check, `seen` the total that the fast path reads, and `staged`
  -- the queue that the write at `at` finds.
  unfoldable pub ingest : ℕ → ℕ → Option Table → Taken
  ingest seen at staged = with_commitment seen at (get_commitment id feed) staged

-- `toHttpError`.
unfoldable pub to_http_error : RejectReason → ℕ
to_http_error unknown = 404
to_http_error already_executed = 409
to_http_error expired = 410
to_http_error oversized = 413
to_http_error wrong_size = 422
to_http_error wrong_blob_id = 422
to_http_error backpressure = 503
