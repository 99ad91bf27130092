-- ===== src/Staged/Types.antt =====
-- relayer/src/staged/staged-intent.types.ts, the columns of the table `staged_intent`
-- (relayer/src/staged/staged-intent.store.ts) and its projection `mapRow`.
-- Times are epoch milliseconds; bytes are a list of byte values; a nullable column is an `Option`.
use bosphor.Base.{ℕ, String, Bool, Option, List, is_some}

abbrev pub Bytes : Type 0
Bytes = List ℕ

pub data StagedState : Type 0 where
  active done dead expired : StagedState

abbrev pub is_active : StagedState → Bool
is_active active = Bool.true
is_active _ = Bool.false

abbrev pub is_dead : StagedState → Bool
is_dead dead = Bool.true
is_dead _ = Bool.false

-- One row as Postgres holds it.
pub record Row : Type 0 where
  pub intent_id : String
  pub committed_blob_id : Option String
  pub size : Option ℕ
  pub deadline : Option ℕ
  pub src_eid : Option ℕ
  pub received : Bool
  pub delivery_digest : Option String
  pub bytes : Option Bytes
  pub blob_id : Option String
  pub walrus_object_id : Option String
  pub walrus_blob_id : Option String
  pub end_epoch : Option ℕ
  pub store_digest : Option String
  pub returned : Bool
  pub state : StagedState
  pub attempts : ℕ
  pub next_attempt_at : ℕ
  pub last_error : Option String
  pub created_at : ℕ
  pub updated_at : ℕ
  pub bytes_recovery_at : Option ℕ
  pub claimed_by : Option String
  pub lease_expires_at : Option ℕ
  pub app_id : Option String
  pub stored_at : Option ℕ
  pub ledgered : Bool
  pub storage_epochs : Option ℕ

-- A row without its bytes: what the reads return.
pub record StagedIntentRow : Type 0 where
  pub intent_id : String
  pub committed_blob_id : Option String
  pub size : Option ℕ
  pub deadline : Option ℕ
  pub src_eid : Option ℕ
  pub received : Bool
  pub delivery_digest : Option String
  pub has_bytes : Bool
  pub blob_id : Option String
  pub walrus_object_id : Option String
  pub walrus_blob_id : Option String
  pub end_epoch : Option ℕ
  pub storage_epochs : Option ℕ
  pub store_digest : Option String
  pub returned : Bool
  pub state : StagedState
  pub attempts : ℕ
  pub next_attempt_at : ℕ
  pub claimed_by : Option String
  pub lease_expires_at : Option ℕ
  pub last_error : Option String
  pub app_id : Option String
  pub stored_at : Option ℕ
  pub ledgered : Bool
  pub created_at : ℕ
  pub updated_at : ℕ

-- `ROW_COLUMNS` and `mapRow`.
abbrev pub map_row : Row → StagedIntentRow
map_row r = record {
  intent_id = r.intent_id;
  committed_blob_id = r.committed_blob_id;
  size = r.size;
  deadline = r.deadline;
  src_eid = r.src_eid;
  received = r.received;
  delivery_digest = r.delivery_digest;
  has_bytes = is_some r.bytes;
  blob_id = r.blob_id;
  walrus_object_id = r.walrus_object_id;
  walrus_blob_id = r.walrus_blob_id;
  end_epoch = r.end_epoch;
  storage_epochs = r.storage_epochs;
  store_digest = r.store_digest;
  returned = r.returned;
  state = r.state;
  attempts = r.attempts;
  next_attempt_at = r.next_attempt_at;
  claimed_by = r.claimed_by;
  lease_expires_at = r.lease_expires_at;
  last_error = r.last_error;
  app_id = r.app_id;
  stored_at = r.stored_at;
  ledgered = r.ledgered;
  created_at = r.created_at;
  updated_at = r.updated_at;
}

pub data UpsertOutcome : Type 0 where
  accepted backpressure terminal : UpsertOutcome

pub record ByteRecoveryCandidate : Type 0 where
  pub intent_id : String
  pub committed_blob_id : String

pub record StagedBytes : Type 0 where
  pub bytes : Bytes
  pub blob_id : String
  pub size : ℕ
  pub app_id : Option String
  pub deadline : Option ℕ

-- `settled` carries the row's state, `missing` is a row purged in between.
pub data ReceivedOutcome : Type 0 where
  recorded missing : ReceivedOutcome
  settled : StagedState → ReceivedOutcome

pub record ReceivedDetails : Type 0 where
  pub src_eid : ℕ
  pub committed_blob_id : String
  pub deadline : ℕ
  pub delivery_digest : Option String
  pub storage_epochs : Option ℕ

pub record UploadResult : Type 0 where
  pub walrus_object_id : String
  pub walrus_blob_id : String
  pub end_epoch : ℕ

pub record StagedStats : Type 0 where
  pub active : ℕ
  pub dead : ℕ
  pub bytes : ℕ
