-- ===== src/Processor/Run/Queue.antt =====
-- The queue's steps, other than the attempts' own, leave the object ids of its rows as they are
-- (relayer/src/staged/staged-intent.store.ts).
use bosphor.Base.{ℕ, String, Bool, refl, Option, List, ◌∷◌, true, false, if◌then◌else◌}
use bosphor.Base.{◌&&◌, ◌≡◌, none, some}
use bosphor.Staged.Types.{
  Row, UpsertOutcome, ReceivedOutcome, is_active, StagedBytes, ReceivedDetails,
}
use bosphor.Staged.Table.{Table, update, find, RowIs, update_where-RowIs, insert-RowIs}
use bosphor.Staged.Store.{
  admits, refusal, staged_bytes_total_excluding, upsert_bytes, mark_received,
  reschedule_byte_recovery, merge_bytes, merge_received, bytes_row, received_row,
}
use bosphor.Staged.Claim.{drain_due}
use bosphor.Staged.Reap.{expire_due, expire_unreceived}
use bosphor.Staged.Settled.{
  Step, deliver_bytes, deliver_event, back_off, claim, expire, expire_orphans,
}
use bosphor.Processor.World.{Event, now}
use bosphor.Processor.Outcome.Rows.{Tally}

-- The tally of an intent's row.
abbrev pub Counted : {U : Type 0} → String → List (Event U) → Table → Type 0
Counted id trace t = RowIs id (λ r. Tally id trace r) t

either_table :
    {O : Type 0} (P : Table → Type 0) (b : Bool) (x y : O × Table)
    → P x.1
    → P y.1
    → P (if b then x else y).1
either_table P true x y p q = p
either_table P false x y p q = q

module _ {U : Type 0} (id : String) (trace : List (Event U)) (now : ℕ) (key : String)
    (t : Table) where
  -- By the row under the key, if there is one.
  upserted :
      (blob : StagedBytes) (o : UpsertOutcome) (gate : Bool) (found : Option Row)
      → find key t ≡ found
      → Counted id trace t
      → Counted id trace
          (elim found as (λ _. UpsertOutcome × Table) [
            | none ↦ if gate then (UpsertOutcome.accepted, bytes_row now key blob ∷ t) else (o, t)
            | some r ↦
                if is_active r.state && gate
                then (UpsertOutcome.accepted, update key (merge_bytes now blob) t)
                else (o, t)
          ]).1
  upserted blob o gate none e k =
      either_table (Counted id trace) gate _ _ (insert-RowIs (bytes_row now key blob) id _ t e k) k
  upserted blob o gate (some r) e k =
      either_table (Counted id trace) (is_active r.state && gate) _ _
        (update_where-RowIs _ (merge_bytes now blob) (λ _. refl) id _ t (λ r h. h) k) k

  upsert_bytes-Counted :
      (blob : StagedBytes) (limit : Option ℕ)
      → Counted id trace t
      → Counted id trace (upsert_bytes now key blob limit t).1
  unfolding upsert_bytes
  upsert_bytes-Counted blob limit k =
      let staged = staged_bytes_total_excluding key t in
      upserted blob (refusal limit staged blob.size) (admits limit staged blob.size) (find key t)
        refl k

  delivered :
      (d : ReceivedDetails) (o : ReceivedOutcome) (found : Option Row)
      → find key t ≡ found
      → Counted id trace t
      → Counted id trace
          (elim found as (λ _. ReceivedOutcome × Table) [
            | none ↦ (ReceivedOutcome.recorded, received_row now key d ∷ t)
            | some r ↦
                if is_active r.state
                then (ReceivedOutcome.recorded, update key (merge_received now d) t)
                else (o, t)
          ]).1
  delivered d o none e k = insert-RowIs (received_row now key d) id _ t e k
  delivered d o (some r) e k =
      either_table (Counted id trace) (is_active r.state) _ _
        (update_where-RowIs _ (merge_received now d) (λ _. refl) id _ t (λ r h. h) k) k

  mark_received-Counted :
      (d : ReceivedDetails) → Counted id trace t → Counted id trace (mark_received now key d t).1
  unfolding mark_received
  mark_received-Counted d k = delivered d _ (find key t) refl k

-- A step of the queue leaves the object id of every row as it is.
pub Step-Counted :
    {U : Type 0} (id : String) (trace : List (Event U)) {t u : Table}
    → Step t u
    → Counted id trace t
    → Counted id trace u
unfolding reschedule_byte_recovery drain_due expire_due expire_unreceived
Step-Counted id trace (deliver_bytes t now key blob limit) k =
    upsert_bytes-Counted id trace now key t blob limit k
Step-Counted id trace (deliver_event t now key d) k = mark_received-Counted id trace now key t d k
Step-Counted id trace (back_off t now key next_at) k =
    update_where-RowIs _ _ (λ _. refl) id _ t (λ r h. h) k
Step-Counted id trace (claim t now limit who lease_ms locked) k =
    update_where-RowIs _ _ (λ _. refl) id _ t (λ r h. h) k
Step-Counted id trace (expire t now) k = update_where-RowIs _ _ (λ _. refl) id _ t (λ r h. h) k
Step-Counted id trace (expire_orphans t cutoff now) k =
    update_where-RowIs _ _ (λ _. refl) id _ t (λ r h. h) k
