-- ===== src/Ingest/Laws.antt =====
-- What an ingest call promises (relayer/src/ingest/intent-ingest.service.ts).
use bosphor.Base.{ℕ, String, Bool, ◌≤◌, ◌≡◌, refl, Option, none, some, true, false, length, arith}
use bosphor.Staged.Types.{Bytes, UpsertOutcome}
use bosphor.Staged.Table.{Table, Keyed, find}
use bosphor.Staged.Store.{staged_bytes_total}
use bosphor.Staged.Admission.{
  HoldsBytes, Outcome, upsert_bytes-Outcome, staged_bytes_total-upsert_bytes-le,
}
use bosphor.Lifecycle.{IntentCommitment, Records, get_commitment}
use bosphor.Ingest.{
  RejectReason, IngestResult, accepted, rejected, Limits, Taken, is_executed, check, stage, answer,
  with_commitment, ingest, blob_of, refused,
}

module _ (limits : Limits) (encode_blob : Bytes → String) (blob_id_matches : String → String → Bool)
    (feed : Records) (now : ℕ) (id : String) (bytes : Bytes) (app_id : Option String) where
  -- The commitment that admits these bytes.
  abbrev pub Admits : IntentCommitment → Type 0
  Admits c =
      (is_executed c.status ≡ false)
      × (now ≤ c.deadline)
      × (length bytes ≤ limits.max_ingest_bytes)
      × (length bytes ≡ c.size)
      × (blob_id_matches (encode_blob bytes) c.committed_blob_id ≡ true)

  abbrev pub Holds : IntentCommitment → Option Table → Type 0
  Holds c none = ⊥
  Holds c (some u) =
      HoldsBytes (blob_of limits encode_blob blob_id_matches feed now id bytes app_id c) (find id u)

  -- What each result says, of the feed's commitment, the queue before and the queue after.
  abbrev pub Verdict : Option IntentCommitment → Table → IngestResult → Option Table → Bool → Type 0
  Verdict none t (accepted _ _) staged woken = ⊥
  Verdict (some c) t (accepted b n) staged woken =
      Admits c × (b ≡ encode_blob bytes) × (n ≡ length bytes) × Holds c staged × (woken ≡ true)
  Verdict o t (rejected _) staged woken = (staged ≡ some t) × (woken ≡ false)

  abbrev Judged : Option IntentCommitment → Table → Taken → Type 0
  Judged o t x = Verdict o t x.result x.staged x.woken

  check-Admits :
      (seen : ℕ) (c : IntentCommitment) (staged : Option Table)
      → check limits encode_blob blob_id_matches feed now id bytes app_id seen c staged ≡ none
      → Admits c
  unfolding check
  check-Admits seen c staged h =
      (ground arith, ground arith, ground arith, ground arith, ground arith)

  answer-Verdict :
      (c : IntentCommitment) (t : Table) (x : UpsertOutcome × Table)
      → Admits c
      → Outcome id
          (blob_of limits encode_blob blob_id_matches feed now id bytes app_id c)
          (some limits.max_staged_bytes)
          t
          x
      → Judged (some c) t (answer limits encode_blob blob_id_matches feed now id bytes app_id x)
  answer-Verdict c t (UpsertOutcome.accepted, u) a h = (a, refl, refl, h, refl)
  answer-Verdict c t (UpsertOutcome.terminal, u) a (same, _) = (cc, refl)
  answer-Verdict c t (UpsertOutcome.backpressure, u) a (same, _) = (cc, refl)

  checked :
      (seen at : ℕ) (c : IntentCommitment) (t : Table) (o : Option RejectReason)
      → check limits encode_blob blob_id_matches feed now id bytes app_id seen c (some t) ≡ o
      → Judged (some c) t (elim o [
        | some reason ↦ refused reason (some t)
        | none ↦ stage limits encode_blob blob_id_matches feed now id bytes app_id at c (some t)
      ])
  unfolding stage
  checked seen at c t none e =
      answer-Verdict c t _ (check-Admits seen c (some t) e) (upsert_bytes-Outcome at id _ _ t)
  checked seen at c t (some reason) e = (refl, refl)

  -- With a queue, and whatever total the fast path read before: bytes are accepted only for a commitment of the feed that is not executed and not
  -- past its deadline, if their length is the committed one and within the limit and their blob id is
  -- the committed one; then the queue's row holds exactly these bytes and the processor was woken. A
  -- rejected call leaves the queue as it was and wakes nobody.
  pub ingest-Verdict :
      (seen at : ℕ) (t : Table)
      → (let x =
            ingest limits encode_blob blob_id_matches feed now id bytes app_id seen at (some t) in
          Verdict (get_commitment id feed) t x.result x.staged x.woken)
  unfolding ingest stage
  ingest-Verdict seen at t = go (get_commitment id feed)
    where
      go :
          (o : Option IntentCommitment)
          → Judged o t (
              with_commitment limits encode_blob blob_id_matches feed now id bytes app_id seen at o
                (some t))
      go none = (refl, refl)
      go (some c) = checked seen at c t _ refl

  abbrev pub total : Option Table → ℕ
  total none = 0
  total (some t) = staged_bytes_total t

  answer-total :
      (t : Table) (x : UpsertOutcome × Table)
      → staged_bytes_total x.1 ≤ limits.max_staged_bytes
      → total (answer limits encode_blob blob_id_matches feed now id bytes app_id x).staged
        ≤ limits.max_staged_bytes
  answer-total t (UpsertOutcome.accepted, u) h = h
  answer-total t (UpsertOutcome.terminal, u) h = h
  answer-total t (UpsertOutcome.backpressure, u) h = h

  -- A queue within MAX_STAGED_BYTES stays within it, even if the total that the fast path read was
  -- stale: the write checks the limit again.
  pub total-ingest-le :
      (seen at : ℕ) (t : Table)
      → Keyed t
      → staged_bytes_total t ≤ limits.max_staged_bytes
      → total
          (ingest limits encode_blob blob_id_matches feed now id bytes app_id seen at
            (some t)).staged
        ≤ limits.max_staged_bytes
  unfolding ingest stage
  total-ingest-le seen at t k h = go (get_commitment id feed)
    where
      written :
          (c : IntentCommitment) (o : Option RejectReason)
          → total
              (elim o as (λ _. Taken) [
                | some reason ↦ refused reason (some t)
                | none ↦
                    stage limits encode_blob blob_id_matches feed now id bytes app_id at c (some t)
              ]).staged
            ≤ limits.max_staged_bytes
      written c none =
          answer-total t _
            (staged_bytes_total-upsert_bytes-le at id _ limits.max_staged_bytes t k h)
      written c (some reason) = h

      go :
          (o : Option IntentCommitment)
          → total
              (with_commitment limits encode_blob blob_id_matches feed now id bytes app_id seen at o
                (some t)).staged
            ≤ limits.max_staged_bytes
      go none = h
      go (some c) = written c _
