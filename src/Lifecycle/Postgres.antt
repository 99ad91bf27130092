-- ===== src/Lifecycle/Postgres.antt =====
-- The Postgres store of the feed, relayer/src/lifecycle/pg-intent-lifecycle.store.ts: a list of rows,
-- one per intent. `hops` is a jsonb column; `JSON.stringify` and the driver's reading of it are
-- parameters. A query does not fail. A report reads its row and later writes it whole, and the table
-- that it writes to need not be the one that it read.
pub mod Refines
use bosphor.Base.{ℕ, String, Option, none, some, List, [], ◌∷◌, if◌then◌else◌, str_eq}
use bosphor.Lifecycle.{
  IntentHop, IntentHopRecord, HopDetails, IntentLifecycleRecord, IntentCommitment, apply_hop,
  commitment_of,
}

-- The columns of `intent_lifecycle`; `none` is NULL.
pub record PgRow (Json : Type 0) : Type 0 where
  pub intent_id : String
  pub status : IntentHop
  pub sender : Option String
  pub blob_id : Option String
  pub sui_object_id : Option String
  pub end_epoch : Option ℕ
  pub committed_blob_id : Option String
  pub size : Option ℕ
  pub deadline : Option ℕ
  pub wal_cost_mist : Option String
  pub hops : Json
  pub created_at : ℕ
  pub updated_at : ℕ

pub record JsonCodec (Json : Type 0) : Type 0 where
  pub stringify : List IntentHopRecord → Json
  pub parse : Json → List IntentHopRecord

module _ {Json : Type 0} (json : JsonCodec Json) where
  -- `mapRow`.
  abbrev pub map_row : PgRow Json → IntentLifecycleRecord
  map_row row = record {
    intent_id = row.intent_id;
    status = row.status;
    hops = json.parse row.hops;
    sender = row.sender;
    blob_id = row.blob_id;
    sui_object_id = row.sui_object_id;
    end_epoch = row.end_epoch;
    committed_blob_id = row.committed_blob_id;
    size = row.size;
    deadline = row.deadline;
    wal_cost_mist = row.wal_cost_mist;
    created_at = row.created_at;
    updated_at = row.updated_at;
  }

  -- The values of the INSERT.
  abbrev pub to_row : IntentLifecycleRecord → PgRow Json
  to_row r = record {
    intent_id = r.intent_id;
    status = r.status;
    sender = r.sender;
    blob_id = r.blob_id;
    sui_object_id = r.sui_object_id;
    end_epoch = r.end_epoch;
    committed_blob_id = r.committed_blob_id;
    size = r.size;
    deadline = r.deadline;
    wal_cost_mist = r.wal_cost_mist;
    hops = json.stringify r.hops;
    created_at = r.created_at;
    updated_at = r.updated_at;
  }

  -- ON CONFLICT DO UPDATE: all columns but the key and `created_at`.
  abbrev pub overwrite : PgRow Json → PgRow Json → PgRow Json
  overwrite excluded row = record excluded {
    intent_id = row.intent_id;
    created_at = row.created_at;
  }

  unfoldable pub upsert : PgRow Json → List (PgRow Json) → List (PgRow Json)
  upsert excluded [] = excluded ∷ []
  upsert excluded (row ∷ rows) =
      if str_eq row.intent_id excluded.intent_id
      then overwrite excluded row ∷ rows
      else row ∷ upsert excluded rows

  unfoldable pub find_one : String → List (PgRow Json) → Option IntentLifecycleRecord
  find_one id [] = none
  find_one id (row ∷ rows) =
      if str_eq row.intent_id id then some (map_row row) else find_one id rows

  -- `recordHop`: `read` is the table when the row is looked up, `rows` when it is written.
  unfoldable pub pg_record_hop :
      ℕ
      → String
      → IntentHop
      → HopDetails
      → List (PgRow Json)
      → List (PgRow Json)
      → List (PgRow Json)
  unfolding upsert find_one apply_hop
  pg_record_hop now id hop details read rows =
      upsert (to_row (apply_hop (find_one id read) id hop details now)) rows

  unfoldable pub pg_get_commitment : String → List (PgRow Json) → Option IntentCommitment
  unfolding find_one
  pg_get_commitment id rows = commitment_of (find_one id rows)
