-- ===== src/Ledger.antt =====
-- The durable ops ledger: relayer/src/ledger/storage-op-ledger.types.ts, the store
-- (storage-op-ledger.store.ts) and the service (storage-op-ledger.service.ts). A query of the
-- ledger's database may fail: the outcome of each is an argument.
pub mod Laws
pub mod Tests
use bosphor.Base.{
  ℕ, String, Bool, Option, none, some, List, [], ◌∷◌, true, false, ◌||◌, ◌&&◌, if◌then◌else◌,
  str_eq, or_else, coalesce, is_some,
}
use bosphor.Staged.Types.{StagedIntentRow}
use bosphor.Staged.Table.{Table}
use bosphor.Staged.Progress.{mark_ledgered, pending_ledger}
use bosphor.Lifecycle.{IntentCommitment}

-- Written to `store_digest` when execute_store reports that the intent was recorded before.
abbrev pub already_recorded : String
already_recorded = "already-recorded"

pub record StorageOpEntry : Type 0 where
  pub intent_id : String
  pub src_eid : Option ℕ
  pub sender : Option String
  pub size : Option ℕ
  pub blob_id : Option String
  pub walrus_blob_id : Option String
  pub walrus_object_id : Option String
  pub end_epoch : Option ℕ
  pub app_id : Option String
  pub network : String
  pub store_digest : Option String
  pub created_at : ℕ
  pub stored_at : ℕ

pub record CompletedStore : Type 0 where
  pub row : StagedIntentRow
  pub sender : Option String
  pub committed_blob_id : Option String
  pub walrus_blob_id : Option String
  pub walrus_object_id : Option String
  pub end_epoch : Option ℕ
  pub store_digest : Option String

-- `digest === ALREADY_RECORDED ? null : digest`.
abbrev real_digest : Option String → Option String
real_digest none = none
real_digest (some d) = if str_eq d already_recorded then none else some d

unfoldable pub build_ledger_entry : CompletedStore → String → ℕ → StorageOpEntry
build_ledger_entry op network now =
    let row = op.row in
    record {
      intent_id = row.intent_id;
      src_eid = row.src_eid;
      sender = op.sender;
      size = row.size;
      blob_id = coalesce op.committed_blob_id row.committed_blob_id;
      walrus_blob_id = coalesce op.walrus_blob_id row.walrus_blob_id;
      walrus_object_id = coalesce op.walrus_object_id row.walrus_object_id;
      end_epoch = coalesce op.end_epoch row.end_epoch;
      app_id = row.app_id;
      network = network;
      store_digest = real_digest (coalesce op.store_digest row.store_digest);
      created_at = row.created_at;
      stored_at = or_else row.stored_at (if is_some row.store_digest then row.updated_at else now);
    }

abbrev pub Ledger : Type 0
Ledger = List StorageOpEntry

unfoldable pub get : String → Ledger → Option StorageOpEntry
get id [] = none
get id (e ∷ l) = if str_eq e.intent_id id then some e else get id l

-- INSERT ... ON CONFLICT (intent_id) DO NOTHING; whether a row was inserted.
unfoldable pub insert : StorageOpEntry → Ledger → Bool × Ledger
unfolding get
insert e l = if is_some (get e.intent_id l) then (false, l) else (true, e ∷ l)

-- The two stores that the service writes.
pub record Books : Type 0 where
  pub ledger : Ledger
  pub table : Table

-- `recordCompletedStore`, where the ledger's write succeeds or throws by `up`, and the row's flag
-- is written after it, by `flagged`. The result says whether the op is in the ledger for sure.
unfoldable pub record_completed_store :
    String → ℕ → Bool → Bool → CompletedStore → Books → Bool × Books
unfolding build_ledger_entry insert mark_ledgered
record_completed_store network now up flagged op b =
    if up
    then (let l = (insert (build_ledger_entry op network now) b.ledger).1 in
        if flagged
        then (true, record { ledger = l; table = mark_ledgered op.row.intent_id b.table })
        else (false, record b { ledger = l }))
    else (false, b)

-- One row of the backfill: `commitment` is the lifecycle store's answer, `none` if it throws.
abbrev pub backfill_row :
    String
    → ℕ
    → (String → Option (Option IntentCommitment))
    → (String → Bool)
    → (String → Bool)
    → StagedIntentRow
    → Books
    → Bool × Books
backfill_row network now commitment up flagged row b = elim (commitment row.intent_id) [
  | none ↦ (false, b)
  | some c ↦
      record_completed_store network now (up row.intent_id) (flagged row.intent_id)
        (record {
          row = row;
          sender = elim c [ none ↦ none | some k ↦ k.sender ];
          committed_blob_id = elim c [ none ↦ none | some k ↦ some k.committed_blob_id ];
          walrus_blob_id = none;
          walrus_object_id = none;
          end_epoch = none;
          store_digest = none;
        })
        b
]

unfoldable pub backfill_rows :
    String
    → ℕ
    → (String → Option (Option IntentCommitment))
    → (String → Bool)
    → (String → Bool)
    → List StagedIntentRow
    → Books
    → Books
backfill_rows network now commitment up flagged [] b = b
backfill_rows network now commitment up flagged (row ∷ rows) b =
    backfill_rows network now commitment up flagged rows
      (backfill_row network now commitment up flagged row b).1

-- The sweep over the completed stores that the ledger is owed.
unfoldable pub backfill :
    String
    → ℕ
    → ℕ
    → (String → Option (Option IntentCommitment))
    → (String → Bool)
    → (String → Bool)
    → Books
    → Books
unfolding backfill_rows pending_ledger
backfill network now limit commitment up flagged b =
    backfill_rows network now commitment up flagged (pending_ledger limit b.table) b
