-- ===== src/Lifecycle/Tests.antt =====
-- A feed of two intents, and the feed's theorems applied to it.
use bosphor.Base.{refl, some, List, [], ◌∷◌, ◌≡◌}
use bosphor.Lifecycle.{submitted, received, no_details, get_commitment, HopDetails, IntentHopRecord}
use bosphor.Lifecycle.Postgres.{JsonCodec, upsert, find_one, pg_record_hop, pg_get_commitment}
use bosphor.Lifecycle.Postgres.Refines.{
  IsFaithful, PgReport, IsUndisturbed, view, pg_report, reports, pg_report-refines,
}
use bosphor.Lifecycle.Laws.{report}

abbrev submission : HopDetails
submission = record no_details {
  sender = some "0xs";
  committed_blob_id = some "0xb";
  size = some 3;
  deadline = some 900;
}

-- Hops written as they are.
as_written : JsonCodec (List IntentHopRecord)
as_written = record { stringify = λ hops. hops; parse = λ hops. hops }

as_written-IsFaithful : IsFaithful as_written
unfolding as_written
as_written-IsFaithful hops = refl

abbrev first : PgReport as_written
first = record {
  report = record { at = 10; id = "i1"; hop = submitted; details = submission };
  read = [];
}

-- Of another intent, and read before the first report is written.
abbrev other : PgReport as_written
other = record {
  report = record { at = 20; id = "i2"; hop = submitted; details = submission };
  read = [];
}

-- Read before the other intent's row is written.
abbrev again : PgReport as_written
again = record {
  report = record { at = 30; id = "i1"; hop = received; details = no_details };
  read = pg_report as_written (first ∷ []) [];
}

undisturbed : IsUndisturbed as_written (first ∷ other ∷ again ∷ []) []
unfolding find_one upsert pg_record_hop
undisturbed = (refl, (refl, (refl, tt)))

pg_report-refines_example :
    (view as_written (pg_report as_written (first ∷ other ∷ again ∷ []) [])
      ≡ report (reports as_written (first ∷ other ∷ again ∷ [])) [])
    × (pg_get_commitment as_written "i1" (pg_report as_written (first ∷ other ∷ again ∷ []) [])
        ≡ get_commitment "i1" (report (reports as_written (first ∷ other ∷ again ∷ [])) []))
pg_report-refines_example =
    pg_report-refines as_written (first ∷ other ∷ again ∷ []) [] "i1" as_written-IsFaithful
      undisturbed
