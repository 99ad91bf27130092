-- ===== src/Staged/Progress.antt =====
-- The operations by which the processor moves a row on: `fetchBytes`, the persisted results of the
-- store's steps, the terminal marks and the retry (relayer/src/staged/staged-intent.store.ts).
use bosphor.Base.{
  ℕ, String, Bool, Option, none, some, List, map, ◌&&◌, true, not, is_some, select, take, order_by,
}
use bosphor.Staged.Types.{Row, StagedIntentRow, StagedState, Bytes, UploadResult, map_row}
use bosphor.Staged.Table.{Table, find, update}

unfoldable pub fetch_bytes : String → Table → Option Bytes
fetch_bytes id t = elim (find id t) [ none ↦ none | some r ↦ r.bytes ]

abbrev pub set_upload : ℕ → UploadResult → Row → Row
set_upload now up r = record r {
  walrus_object_id = some up.walrus_object_id;
  walrus_blob_id = some up.walrus_blob_id;
  end_epoch = some up.end_epoch;
  updated_at = now;
}

unfoldable pub persist_upload : ℕ → String → UploadResult → Table → Table
persist_upload now id up t = update id (set_upload now up) t

abbrev pub set_store : ℕ → String → Row → Row
set_store now digest r = record r {
  store_digest = some digest;
  stored_at = some now;
  updated_at = now;
}

unfoldable pub persist_store : ℕ → String → String → Table → Table
persist_store now id digest t = update id (set_store now digest) t

abbrev pub set_ledgered : Row → Row
set_ledgered r = record r { ledgered = true }

unfoldable pub mark_ledgered : String → Table → Table
mark_ledgered id t = update id set_ledgered t

abbrev pub owes_ledger : Row → Bool
owes_ledger r = is_some r.store_digest && not r.ledgered

unfoldable pub pending_ledger : ℕ → Table → List StagedIntentRow
unfolding order_by
pending_ledger limit t =
    map map_row (take limit (order_by (λ r. r.created_at) (select owes_ledger t)))

abbrev pub set_returned : ℕ → Row → Row
set_returned now r = record r { returned = true; updated_at = now }

unfoldable pub mark_returned : ℕ → String → Table → Table
mark_returned now id t = update id (set_returned now) t

abbrev pub set_no_bytes : ℕ → Row → Row
set_no_bytes now r = record r { bytes = none; updated_at = now }

unfoldable pub free_bytes : ℕ → String → Table → Table
free_bytes now id t = update id (set_no_bytes now) t

abbrev pub set_done : ℕ → Row → Row
set_done now r = record r { state = StagedState.done; bytes = none; updated_at = now }

unfoldable pub mark_done : ℕ → String → Table → Table
mark_done now id t = update id (set_done now) t

abbrev pub set_dead : ℕ → String → Row → Row
set_dead now why r = record r {
  state = StagedState.dead;
  bytes = none;
  last_error = some why;
  updated_at = now;
}

unfoldable pub mark_dead : ℕ → String → String → Table → Table
mark_dead now id why t = update id (set_dead now why) t

abbrev pub set_retry : ℕ → ℕ → ℕ → String → Row → Row
set_retry now attempts next_at why r = record r {
  attempts = attempts;
  next_attempt_at = next_at;
  last_error = some why;
  updated_at = now;
  claimed_by = none;
  lease_expires_at = none;
}

unfoldable pub reschedule : ℕ → String → ℕ → ℕ → String → Table → Table
reschedule now id attempts next_at why t = update id (set_retry now attempts next_at why) t

unfoldable pub get : String → Table → Option StagedIntentRow
get id t = elim (find id t) [ none ↦ none | some r ↦ some (map_row r) ]
