-- ===== src/Staged/Store.antt =====
-- The producers' operations of `StagedIntentStore` (relayer/src/staged/staged-intent.store.ts):
-- the byte upsert with its admission control, `markReceived`, and the byte-recovery queries. An
-- operation takes the clock's reading `now` and the table, and returns its result and the table.
use bosphor.Base.{
  ℕ, String, Bool, ◌+◌, Option, none, some, List, ◌∷◌, map, ◌&&◌, true, false, not, if◌then◌else◌,
  is_some, or_else, coalesce, sum_by, select, take, order_by, leb, ltb,
}
use bosphor.Staged.Types.{
  Row, StagedState, StagedBytes, UpsertOutcome, ReceivedOutcome, ReceivedDetails,
  ByteRecoveryCandidate, is_active,
}
use bosphor.Staged.Table.{Table, find, update, update_where, has_id}

-- The column defaults of `init`, for a row that is created at `now`.
abbrev pub new_row : String → ℕ → Row
new_row id now = record {
  intent_id = id;
  committed_blob_id = none;
  size = none;
  deadline = none;
  src_eid = none;
  received = false;
  delivery_digest = none;
  bytes = none;
  blob_id = none;
  walrus_object_id = none;
  walrus_blob_id = none;
  end_epoch = none;
  store_digest = none;
  returned = false;
  state = StagedState.active;
  attempts = 0;
  next_attempt_at = now;
  last_error = none;
  created_at = now;
  updated_at = now;
  bytes_recovery_at = none;
  claimed_by = none;
  lease_expires_at = none;
  app_id = none;
  stored_at = none;
  ledgered = false;
  storage_epochs = none;
}

-- What a row adds to SUM(size) WHERE bytes IS NOT NULL (SUM passes over a null size).
abbrev pub held : Row → ℕ
held r = if is_some r.bytes then or_else r.size 0 else 0

unfoldable pub staged_bytes_total : Table → ℕ
staged_bytes_total t = sum_by held t

unfoldable pub staged_bytes_total_excluding : String → Table → ℕ
staged_bytes_total_excluding id t = sum_by (λ r. if has_id id r then 0 else held r) t

-- The gate of the statement: `$6 = false OR staged + size <= cap`.
abbrev pub admits : Option ℕ → ℕ → ℕ → Bool
admits none staged size = true
admits (some cap) staged size = leb (staged + size) cap

-- Why nothing was written.
abbrev pub refusal : Option ℕ → ℕ → ℕ → UpsertOutcome
refusal none staged size = UpsertOutcome.terminal
refusal (some cap) staged size =
    if ltb cap (staged + size) then UpsertOutcome.backpressure else UpsertOutcome.terminal

-- The SET list of the conflict branch.
abbrev pub merge_bytes : ℕ → StagedBytes → Row → Row
merge_bytes now blob r = record r {
  bytes = some blob.bytes;
  blob_id = some blob.blob_id;
  size = some blob.size;
  updated_at = now;
  app_id = coalesce blob.app_id r.app_id;
  deadline = coalesce r.deadline blob.deadline;
}

-- The inserted row.
abbrev pub bytes_row : ℕ → String → StagedBytes → Row
bytes_row now id blob = record (new_row id now) {
  bytes = some blob.bytes;
  blob_id = some blob.blob_id;
  size = some blob.size;
  app_id = blob.app_id;
  deadline = blob.deadline;
}

-- `upsertBytes`, where `later` is the total that its second query reads after a refused write.
abbrev pub upsert_then : ℕ → ℕ → String → StagedBytes → Option ℕ → Table → UpsertOutcome × Table
upsert_then later now id blob cap t =
    let staged = staged_bytes_total_excluding id t in
    elim (find id t) [
      | none ↦
          if admits cap staged blob.size
          then (UpsertOutcome.accepted, bytes_row now id blob ∷ t)
          else (refusal cap later blob.size, t)
      | some r ↦
          if is_active r.state && admits cap staged blob.size
          then (UpsertOutcome.accepted, update id (merge_bytes now blob) t)
          else (refusal cap later blob.size, t)
    ]

-- `upsertBytes`, if no other statement comes between its two queries. The table after it is the same
-- if one does.
unfoldable pub upsert_bytes : ℕ → String → StagedBytes → Option ℕ → Table → UpsertOutcome × Table
unfolding staged_bytes_total_excluding
upsert_bytes now id blob cap t = upsert_then (staged_bytes_total_excluding id t) now id blob cap t

abbrev pub merge_received : ℕ → ReceivedDetails → Row → Row
merge_received now d r = record r {
  received = true;
  src_eid = some d.src_eid;
  committed_blob_id = some d.committed_blob_id;
  deadline = some d.deadline;
  delivery_digest = coalesce d.delivery_digest r.delivery_digest;
  storage_epochs = coalesce d.storage_epochs r.storage_epochs;
  updated_at = now;
}

abbrev pub received_row : ℕ → String → ReceivedDetails → Row
received_row now id d = record (new_row id now) {
  received = true;
  src_eid = some d.src_eid;
  committed_blob_id = some d.committed_blob_id;
  deadline = some d.deadline;
  delivery_digest = d.delivery_digest;
  storage_epochs = d.storage_epochs;
}

-- What is told of an event that was not recorded: the state of the row that the second query finds.
abbrev pub not_recorded : Option Row → ReceivedOutcome
not_recorded none = ReceivedOutcome.missing
not_recorded (some r) = ReceivedOutcome.settled r.state

-- `markReceived`, where `later` is the row that its second query finds after a refused write.
abbrev pub received_then :
    Option Row → ℕ → String → ReceivedDetails → Table → ReceivedOutcome × Table
received_then later now id d t = elim (find id t) [
  | none ↦ (ReceivedOutcome.recorded, received_row now id d ∷ t)
  | some r ↦
      if is_active r.state
      then (ReceivedOutcome.recorded, update id (merge_received now d) t)
      else (not_recorded later, t)
]

-- `markReceived`, if no other statement comes between its two queries; as for `upsert_bytes`, the table
-- after it is the same if one does.
unfoldable pub mark_received : ℕ → String → ReceivedDetails → Table → ReceivedOutcome × Table
mark_received now id d t = received_then (find id t) now id d t

-- `deadline IS NULL OR deadline > now`.
abbrev pub still_open : ℕ → Option ℕ → Bool
still_open now none = true
still_open now (some d) = ltb now d

-- The WHERE clause of `claimForByteRecovery`.
unfoldable pub recoverable : ℕ → ℕ → Row → Bool
recoverable now grace r =
    is_active r.state
    && r.received
    && not (is_some r.bytes)
    && is_some r.committed_blob_id
    && not (is_some r.walrus_object_id)
    && not (is_some r.store_digest)
    && still_open now r.deadline
    && leb (or_else r.bytes_recovery_at (r.created_at + grace)) now

abbrev pub candidate : Row → ByteRecoveryCandidate
candidate r = record { intent_id = r.intent_id; committed_blob_id = or_else r.committed_blob_id "" }

unfoldable pub claim_for_byte_recovery : ℕ → ℕ → ℕ → Table → List ByteRecoveryCandidate
unfolding recoverable order_by
claim_for_byte_recovery now grace limit t =
    map candidate (take limit (order_by (λ r. r.created_at) (select (recoverable now grace) t)))

abbrev pub set_recovery : ℕ → ℕ → Row → Row
set_recovery now next_at r = record r { bytes_recovery_at = some next_at; updated_at = now }

unfoldable pub reschedule_byte_recovery : ℕ → String → ℕ → Table → Table
reschedule_byte_recovery now id next_at t =
    update_where (λ r. has_id id r && is_active r.state) (set_recovery now next_at) t
