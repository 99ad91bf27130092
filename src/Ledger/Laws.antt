-- ===== src/Ledger/Laws.antt =====
-- The ledger records an op once, and a row is flagged only when its op is recorded
-- (relayer/src/ledger/storage-op-ledger.service.ts, storage-op-ledger.store.ts).
use mathlib.Core.Path.{subst}
use bosphor.Base.{
  sym, ◌∙◌, Option-cases, ℕ, String, Bool, ◌≡◌, refl, Option, none, some, List, [], ◌∷◌, true,
  false, arith, eq_iff, is_some, Bool-cases, inl, inr,
}
use bosphor.Staged.Types.{Row, StagedIntentRow}
use bosphor.Staged.Table.{Table, find, has_id, find-update_where, find-intent_id}
use bosphor.Staged.Progress.{mark_ledgered, set_ledgered, pending_ledger}
use bosphor.Lifecycle.{IntentCommitment}
use bosphor.Ledger.{
  Ledger, StorageOpEntry, CompletedStore, Books, get, insert, build_ledger_entry,
  record_completed_store, backfill_row, backfill_rows, backfill,
}

-- No intent has two entries.
abbrev pub Once : Ledger → Type 0
Once [] = Unit {0}
Once (e ∷ l) = (get e.intent_id l ≡ none) × Once l

-- Every flagged row has its entry.
abbrev pub FlaggedIsRecorded : Books → Type 0
FlaggedIsRecorded b =
    (id : String) (r : Row)
    → find id b.table ≡ some r
    → r.ledgered ≡ true
    → is_some (get id b.ledger) ≡ true

pub record IsSound (b : Books) : Type 0 where
  pub once : Once b.ledger
  pub flagged : FlaggedIsRecorded b

insert-Once : (e : StorageOpEntry) (l : Ledger) → Once l → Once (insert e l).1
unfolding insert
insert-Once e l h = ground arith

-- An insertion never takes an entry away or changes one, and its own id has one afterwards.
pub insert-keeps :
    (e f : StorageOpEntry) (id : String) (l : Ledger)
    → get id l ≡ some f
    → get id (insert e l).1 ≡ some f
unfolding insert
insert-keeps e f id l h = ground (arith, eq_iff e.intent_id id)

get-insert_self :
    (e : StorageOpEntry) (l : Ledger) → is_some (get e.intent_id (insert e l).1) ≡ true
unfolding insert
get-insert_self e l = ground (arith, eq_iff e.intent_id e.intent_id)

is_some-get-insert :
    (e : StorageOpEntry) (id : String) (l : Ledger)
    → is_some (get id l) ≡ true
    → is_some (get id (insert e l).1) ≡ true
unfolding insert
is_some-get-insert e id l h = ground arith

-- Flagging the rows of one id, whose entry is there.
mark_ledgered-FlaggedIsRecorded :
    (key : String) (t : Table) (l : Ledger)
    → is_some (get key l) ≡ true
    → FlaggedIsRecorded (record { ledger = l; table = t })
    → FlaggedIsRecorded (record { ledger = l; table = mark_ledgered key t })
unfolding mark_ledgered
mark_ledgered-FlaggedIsRecorded key t l there h id r f e = elim (Option-cases (find id t)) [
  | inl none_found ↦ ground (arith, find-update_where (has_id key) set_ledgered (λ _. refl) id t)
  | inr (q, found) ↦ elim (Bool-cases (has_id key q)) [
    | inl same ↦
        let at_key : key ≡ id =
          sym ((eq_iff q.intent_id key).0 same) ∙ find-intent_id id t q found in
        subst (λ k. is_some (get k l) ≡ true) at_key there
    | inr other ↦
        h id q found (ground (arith, find-update_where (has_id key) set_ledgered (λ _. refl) id t))
  ]
]

recorded_entry :
    (op : CompletedStore) (network : String) (now : ℕ) (l : Ledger)
    → is_some (get op.row.intent_id (insert (build_ledger_entry op network now) l).1) ≡ true
unfolding build_ledger_entry
recorded_entry op network now l = get-insert_self (build_ledger_entry op network now) l

record_completed_store-IsSound :
    (network : String) (now : ℕ) (up flagged : Bool) (op : CompletedStore) (b : Books)
    → IsSound b
    → IsSound (record_completed_store network now up flagged op b).1
unfolding record_completed_store
record_completed_store-IsSound network now false flagged op b h = h
record_completed_store-IsSound network now true false op b h = record {
  once = insert-Once _ b.ledger h.once;
  flagged = λ id r f e. is_some-get-insert _ id b.ledger (h.flagged id r f e);
}
record_completed_store-IsSound network now true true op b h =
    let e = build_ledger_entry op network now in
    record {
      once = insert-Once e b.ledger h.once;
      flagged =
          mark_ledgered-FlaggedIsRecorded op.row.intent_id b.table (insert e b.ledger).1
            (recorded_entry op network now b.ledger)
            (λ id r f p. is_some-get-insert e id b.ledger (h.flagged id r f p));
    }

module _ (network : String) (now : ℕ) (commitment : String → Option (Option IntentCommitment))
    (up flagged : String → Bool) where
  backfill_row-IsSound :
      (row : StagedIntentRow) (b : Books)
      → IsSound b
      → IsSound (backfill_row network now commitment up flagged row b).1
  backfill_row-IsSound row b h = elim (Option-cases (commitment row.intent_id)) [
    | inl e ↦ rw (e, backfill_row) h
    | inr (c, e) ↦
        rw (e, backfill_row)
          (record_completed_store-IsSound network now (up row.intent_id) (flagged row.intent_id) _ b
            h)
  ]

  backfill_rows-IsSound :
      (rows : List StagedIntentRow) (b : Books)
      → IsSound b
      → IsSound (backfill_rows network now commitment up flagged rows b)
  unfolding backfill_rows
  backfill_rows-IsSound [] b h = h
  backfill_rows-IsSound (row ∷ rows) b h =
      backfill_rows-IsSound rows _ (backfill_row-IsSound row b h)

  -- Whatever the ledger's and the feed's databases do, a backfill sweep leaves at most one entry for
  -- an intent, and flags a row only if its intent has an entry.
  pub backfill-IsSound :
      (limit : ℕ) (b : Books)
      → IsSound b
      → IsSound (backfill network now limit commitment up flagged b)
  unfolding backfill
  backfill-IsSound limit b h = backfill_rows-IsSound (pending_ledger limit b.table) b h

-- The queue's table after a record: as it was, or with the op's rows flagged.
pub record_completed_store-table :
    (network : String) (now : ℕ) (up flags : Bool) (op : CompletedStore) (b : Books)
    (p : Table → Type 0)
    → p b.table
    → p (mark_ledgered op.row.intent_id b.table)
    → p (record_completed_store network now up flags op b).1.table
unfolding record_completed_store
record_completed_store-table network now false flags op b p h k = h
record_completed_store-table network now true false op b p h k = h
record_completed_store-table network now true true op b p h k = k
