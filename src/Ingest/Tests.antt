-- ===== src/Ingest/Tests.antt =====
-- An upload of three bytes for a commitment to three.
use bosphor.Base.{ℕ, ◌≤◌, ◌≡◌, refl, none, some, List, [], ◌∷◌, true, arith}
use bosphor.Staged.Store.{staged_bytes_total, upsert_bytes}
use bosphor.Lifecycle.{Records, submitted, get_commitment, first_record}
use bosphor.Ingest.{Limits, accepted, ingest, check, stage}
use bosphor.Ingest.Laws.{Verdict, ingest-Verdict, total, total-ingest-le}

abbrev limits : Limits
limits = record { max_ingest_bytes = 10; max_staged_bytes = 20 }

abbrev feed : Records
feed =
    (
      "i1",
      record (first_record "i1" submitted 1) {
        committed_blob_id = some "0xb";
        size = some 3;
        deadline = some 900;
      },
    )
    ∷ []

abbrev bytes : List ℕ
bytes = 1 ∷ 2 ∷ 3 ∷ []

admitted :
    (ingest limits (λ _. "b") (λ _ _. true) feed 50 "i1" bytes none 0 60 (some [])).result
    ≡ accepted "b" 3
unfolding ingest get_commitment check stage upsert_bytes
admitted = refl

ingest-Verdict_example :
    (let x = ingest limits (λ _. "b") (λ _ _. true) feed 50 "i1" bytes none 0 60 (some []) in
      Verdict limits
        (λ _. "b")
        (λ _ _. true)
        feed
        50
        "i1"
        bytes
        none
        (get_commitment "i1" feed)
        []
        x.result
        x.staged
        x.woken)
ingest-Verdict_example =
    ingest-Verdict limits (λ _. "b") (λ _ _. true) feed 50 "i1" bytes none 0 60 []

total-ingest-le_example :
    total limits
      (λ _. "b")
      (λ _ _. true)
      feed
      50
      "i1"
      bytes
      none
      (ingest limits (λ _. "b") (λ _ _. true) feed 50 "i1" bytes none 0 60 (some [])).staged
    ≤ 20
unfolding staged_bytes_total
total-ingest-le_example =
    total-ingest-le limits (λ _. "b") (λ _ _. true) feed 50 "i1" bytes none 0 60 [] tt (omega arith)
