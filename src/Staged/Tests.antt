-- ===== src/Staged/Tests.antt =====
-- Runs of the queue at concrete rows, and the queue's theorems applied there.
use bosphor.Base.{
  ◌==◌, String, ◌≤◌, ◌≡◌, ◌≢◌, refl, none, some, [], ◌∷◌, true, false, arith, All, eq_iff,
}
use bosphor.Staged.Types.{
  Row, StagedBytes, ReceivedDetails, StagedState, UpsertOutcome, ReceivedOutcome,
}
use bosphor.Staged.Table.{Keyed}
use bosphor.Staged.Store.{
  new_row, staged_bytes_total, staged_bytes_total_excluding, upsert_then, upsert_bytes,
  mark_received,
}
use bosphor.Staged.Claim.{drain_due}
use bosphor.Staged.Reap.{reap}
use bosphor.Staged.Admission.{LaterOutcome, upsert_then-Outcome, staged_bytes_total-upsert_bytes-le}
use bosphor.Staged.Settled.{here, next, deliver_event, deliver_bytes, Settled, Steps-Settled}
use bosphor.Staged.Lease.{drain_due-disjoint}
use bosphor.Staged.Retention.{Owes, reap-Owes, InTime, reap-InTime}

abbrev blob : StagedBytes
blob = record {
  bytes = 1 ∷ 2 ∷ 3 ∷ [];
  blob_id = "b";
  size = 3;
  app_id = none;
  deadline = some 500;
}

abbrev details : ReceivedDetails
details = record {
  src_eid = 40161;
  committed_blob_id = "0xb";
  deadline = 900;
  delivery_digest = none;
  storage_epochs = some 5;
}

-- Bytes, then the event, on one id.
abbrev ready : Row
ready = record (new_row "i1" 10) {
  bytes = some (1 ∷ 2 ∷ 3 ∷ []);
  blob_id = some "b";
  size = some 3;
  deadline = some 900;
  received = true;
  src_eid = some 40161;
  committed_blob_id = some "0xb";
  storage_epochs = some 5;
  updated_at = 20;
}

producers : (mark_received 20 "i1" details (upsert_bytes 10 "i1" blob (some 4) []).1).1 ≡ ready ∷ []
unfolding upsert_bytes mark_received
producers = refl

full : (upsert_bytes 30 "i2" blob (some 4) (ready ∷ [])).0 ≡ UpsertOutcome.backpressure
unfolding upsert_bytes
full = refl

keyed : Keyed (ready ∷ [])
keyed = (refl, tt)

staged_bytes_total-upsert_bytes-le_example :
    staged_bytes_total (upsert_bytes 30 "i2" blob (some 6) (ready ∷ [])).1 ≤ 6
unfolding staged_bytes_total
staged_bytes_total-upsert_bytes-le_example =
    staged_bytes_total-upsert_bytes-le 30 "i2" blob 6 (ready ∷ []) keyed (omega arith)

drained : (drain_due 30 20 "A" 100 (λ _. false) (ready ∷ [])).0 ≢ []
unfolding drain_due
drained e = cc e

A_not_B : ◌≢◌ {A = String} "A" "B"
A_not_B = ground (arith, eq_iff "A" "B")

drain_due-disjoint_example :
    All
      (λ w.
        All (λ v. w.intent_id ≢ v.intent_id) (drain_due 30 20 "A" 100 (λ _. false) (ready ∷ [])).0)
      (drain_due 60 20 "B" 100 (λ _. false) (drain_due 30 20 "A" 100 (λ _. false) (ready ∷ [])).1).0
drain_due-disjoint_example =
    drain_due-disjoint 30 20 "A" 100 (λ _. false) (ready ∷ []) 60 20 "B" 100 (λ _. false) keyed
      A_not_B (omega arith)

-- A row that expired, and a late event for it.
abbrev gone : Row
gone = record ready { state = StagedState.expired; bytes = none; updated_at = 901 }

late_event :
    (mark_received 950 "i1" details (gone ∷ [])).0 ≡ ReceivedOutcome.settled StagedState.expired
unfolding mark_received
late_event = refl

Steps-Settled_example :
    Settled "i1" gone
      (upsert_bytes 960 "i1" blob none (mark_received 950 "i1" details (gone ∷ [])).1).1
Steps-Settled_example =
    Steps-Settled "i1" gone {t = gone ∷ []}
      (next (next here (deliver_event _ 950 "i1" details)) (deliver_bytes _ 960 "i1" blob none))
      (refl, tt) (refl, refl)

-- A store that completed and then expired before its ledger entry was written.
abbrev owing : Row
owing = record gone { store_digest = some "d" }

reap-Owes_example : Owes "i1" "d" (reap false (λ n. n == 3) 100 100 5000 (owing ∷ [])).1
reap-Owes_example =
    reap-Owes false (λ n. n == 3) 100 100 5000 "i1" "d" (owing ∷ []) (owing, refl, refl, refl)

-- The other row's bytes are freed between the two queries.
upsert_then-Outcome_example :
    LaterOutcome 0 "i2" blob
      (some 4)
      (ready ∷ [])
      (upsert_then 0 30 "i2" blob (some 4) (ready ∷ []))
upsert_then-Outcome_example = upsert_then-Outcome 0 30 "i2" blob (some 4) (ready ∷ [])

-- Then "terminal" is said of an intent that has no row.
terminal_of_none : (upsert_then 0 30 "i2" blob (some 4) (ready ∷ [])).0 ≡ UpsertOutcome.terminal
unfolding staged_bytes_total_excluding
terminal_of_none = refl

reap-InTime_example :
    All (InTime 100 1000) (reap false (λ n. n == 2) 100 100 1000 (ready ∷ gone ∷ [])).1
reap-InTime_example = reap-InTime (λ n. n == 2) 100 100 1000 (ready ∷ gone ∷ []) refl refl
