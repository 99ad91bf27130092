-- ===== src/Lifecycle.antt =====
-- The lifecycle feed: relayer/src/lifecycle/intent-lifecycle.types.ts, the hop merge
-- (intent-lifecycle.merge.ts) and the in-memory store (in-memory-intent-lifecycle.store.ts).
pub mod Postgres
pub mod Track
pub mod Laws
pub mod Tests
use bosphor.Base.{
  ◌==◌, ℕ, String, Bool, Option, none, some, List, [], ◌∷◌, ◌++◌, true, false, ◌||◌, ◌&&◌,
  if◌then◌else◌, str_eq, or_else, coalesce, is_some, take, any,
}

pub data IntentHop : Type 0 where
  submitted received stored_walrus recorded_sui proof_sent confirmed : IntentHop

-- The hop's place in the round trip.
unfoldable pub rank : IntentHop → ℕ
rank submitted = 0
rank received = 1
rank stored_walrus = 2
rank recorded_sui = 3
rank proof_sent = 4
rank confirmed = 5

pub record HopDetails : Type 0 where
  pub tx_hash : Option String
  pub sender : Option String
  pub blob_id : Option String
  pub sui_object_id : Option String
  pub end_epoch : Option ℕ
  pub committed_blob_id : Option String
  pub size : Option ℕ
  pub deadline : Option ℕ
  pub wal_cost_mist : Option String
  pub timestamp : Option ℕ

abbrev pub no_details : HopDetails
no_details = record {
  tx_hash = none;
  sender = none;
  blob_id = none;
  sui_object_id = none;
  end_epoch = none;
  committed_blob_id = none;
  size = none;
  deadline = none;
  wal_cost_mist = none;
  timestamp = none;
}

pub record IntentHopRecord : Type 0 where
  pub hop : IntentHop
  pub timestamp : ℕ
  pub tx_hash : Option String

pub record IntentLifecycleRecord : Type 0 where
  pub intent_id : String
  pub status : IntentHop
  pub hops : List IntentHopRecord
  pub sender : Option String
  pub blob_id : Option String
  pub sui_object_id : Option String
  pub end_epoch : Option ℕ
  pub committed_blob_id : Option String
  pub size : Option ℕ
  pub deadline : Option ℕ
  pub wal_cost_mist : Option String
  pub created_at : ℕ
  pub updated_at : ℕ

pub record IntentCommitment : Type 0 where
  pub intent_id : String
  pub committed_blob_id : String
  pub size : ℕ
  pub deadline : ℕ
  pub sender : Option String
  pub status : IntentHop

-- `h.hop === hop`.
abbrev pub same_hop : IntentHop → IntentHop → Bool
same_hop a b = rank a == rank b

-- The hop's entry is updated in place, or pushed at the end.
unfoldable pub put_hop : IntentHop → ℕ → Option String → List IntentHopRecord → List IntentHopRecord
put_hop hop at tx [] = record { hop = hop; timestamp = at; tx_hash = tx } ∷ []
put_hop hop at tx (h ∷ hs) =
    if same_hop h.hop hop
    then record h { timestamp = at; tx_hash = tx } ∷ hs
    else h ∷ put_hop hop at tx hs

-- The record of a first hop, before the merge.
abbrev pub first_record : String → IntentHop → ℕ → IntentLifecycleRecord
first_record id hop at = record {
  intent_id = id;
  status = hop;
  hops = [];
  sender = none;
  blob_id = none;
  sui_object_id = none;
  end_epoch = none;
  committed_blob_id = none;
  size = none;
  deadline = none;
  wal_cost_mist = none;
  created_at = at;
  updated_at = at;
}

unfoldable pub apply_hop :
    Option IntentLifecycleRecord → String → IntentHop → HopDetails → ℕ → IntentLifecycleRecord
unfolding put_hop rank
apply_hop existing id hop d now =
    let at = or_else d.timestamp now in
    let r = or_else existing (first_record id hop at) in
    record r {
      status = hop;
      hops = put_hop hop at d.tx_hash r.hops;
      updated_at = at;
      sender = coalesce d.sender r.sender;
      blob_id = coalesce d.blob_id r.blob_id;
      sui_object_id = coalesce d.sui_object_id r.sui_object_id;
      end_epoch = coalesce d.end_epoch r.end_epoch;
      committed_blob_id = coalesce d.committed_blob_id r.committed_blob_id;
      size = coalesce d.size r.size;
      deadline = coalesce d.deadline r.deadline;
      wal_cost_mist = coalesce d.wal_cost_mist r.wal_cost_mist;
    }

-- The store's map, by intent id.
abbrev pub Records : Type 0
Records = List (String × IntentLifecycleRecord)

unfoldable pub lookup : String → Records → Option IntentLifecycleRecord
lookup id [] = none
lookup id ((k, r) ∷ m) = if str_eq k id then some r else lookup id m

unfoldable pub insert : String → IntentLifecycleRecord → Records → Records
insert id r [] = (id, r) ∷ []
insert id r ((k, q) ∷ m) = if str_eq k id then (k, r) ∷ m else (k, q) ∷ insert id r m

unfoldable pub record_hop : ℕ → String → IntentHop → HopDetails → Records → Records
unfolding apply_hop lookup insert
record_hop now id hop d m = insert id (apply_hop (lookup id m) id hop d now) m

-- The commitment that a record holds, if its three fields are set.
abbrev pub commitment_of : Option IntentLifecycleRecord → Option IntentCommitment
commitment_of none = none
commitment_of (some r) = elim r.committed_blob_id [
  | none ↦ none
  | some blob_id ↦ elim r.size [
    | none ↦ none
    | some size ↦ elim r.deadline [
      | none ↦ none
      | some deadline ↦ some (record {
        intent_id = r.intent_id;
        committed_blob_id = blob_id;
        size = size;
        deadline = deadline;
        sender = r.sender;
        status = r.status;
      })
    ]
  ]
]

unfoldable pub get_commitment : String → Records → Option IntentCommitment
unfolding lookup
get_commitment id m = commitment_of (lookup id m)
