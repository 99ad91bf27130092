-- ===== src/Lifecycle/Postgres/Refines.antt =====
-- The Postgres store does what the in-memory store does.
use mathlib.Core.Option.{some-injective}
use bosphor.Base.{
  ℕ, String, ◌≡◌, refl, sym, ap, ◌∙◌, Bool-cases, inl, inr, Option, none, some, List, [], ◌∷◌,
  str_eq, eq_iff,
}
use bosphor.Lifecycle.{
  IntentHop, IntentHopRecord, HopDetails, IntentLifecycleRecord, Records, apply_hop, lookup, insert,
  record_hop, get_commitment, commitment_of,
}
use bosphor.Lifecycle.Laws.{Report, report}
use bosphor.Lifecycle.Postgres.{
  PgRow, JsonCodec, map_row, to_row, overwrite, upsert, find_one, pg_record_hop, pg_get_commitment,
}

-- JSON gives back the hops that were written.
abbrev pub IsFaithful : {Json : Type 0} → JsonCodec Json → Type 0
IsFaithful json = (hops : List IntentHopRecord) → json.parse (json.stringify hops) ≡ hops

module _ {Json : Type 0} (json : JsonCodec Json) where
  -- The map that a table stands for.
  abbrev pub view : List (PgRow Json) → Records
  view [] = []
  view (row ∷ rows) = (row.intent_id, map_row json row) ∷ view rows

  -- A report, and the table when it looked up its row.
  pub record PgReport : Type 0 where
    pub report : Report
    pub read : List (PgRow Json)

  abbrev pub pg_write : PgReport → List (PgRow Json) → List (PgRow Json)
  pg_write e rows =
      pg_record_hop json e.report.at e.report.id e.report.hop e.report.details e.read rows

  -- A sequence of reports to the Postgres store, in the order of their writes.
  abbrev pub pg_report : List PgReport → List (PgRow Json) → List (PgRow Json)
  pg_report [] rows = rows
  pg_report (e ∷ es) rows = pg_report es (pg_write e rows)

  abbrev pub reports : List PgReport → List Report
  reports [] = []
  reports (e ∷ es) = e.report ∷ reports es

  -- At the write of each report, the intent's row is as the report read it.
  abbrev pub IsUndisturbed : List PgReport → List (PgRow Json) → Type 0
  IsUndisturbed [] rows = Unit
  IsUndisturbed (e ∷ es) rows =
      (find_one json e.report.id e.read ≡ find_one json e.report.id rows)
      × IsUndisturbed es (pg_write e rows)

  lookup-view :
      (id : String) (rows : List (PgRow Json)) → lookup id (view rows) ≡ find_one json id rows
  unfolding lookup find_one
  lookup-view id [] = refl
  lookup-view id (row ∷ rows) = rw (lookup-view id rows) refl

  module _ (faithful : IsFaithful json) where
    map_row-to_row : (r : IntentLifecycleRecord) → map_row json (to_row json r) ≡ r
    map_row-to_row r = rw (faithful r.hops) refl

    map_row-overwrite :
        (r : IntentLifecycleRecord) (row : PgRow Json)
        → row.intent_id ≡ r.intent_id
        → r.created_at ≡ row.created_at
        → map_row json (overwrite json (to_row json r) row) ≡ r
    map_row-overwrite r row key made = rw (key, sym made, faithful r.hops) refl

    -- The record's `created_at` is the row's, if there is one.
    view-upsert :
        (r : IntentLifecycleRecord) (rows : List (PgRow Json))
        → ((q : IntentLifecycleRecord)
            → find_one json r.intent_id rows ≡ some q
            → r.created_at ≡ q.created_at)
        → view (upsert json (to_row json r) rows) ≡ insert r.intent_id r (view rows)
    unfolding upsert insert find_one
    view-upsert r [] h = ap (λ q. (r.intent_id, q) ∷ []) (map_row-to_row r)
    view-upsert r (row ∷ rows) h = elim (Bool-cases (str_eq row.intent_id r.intent_id)) [
      | inl same ↦
          let key : row.intent_id ≡ r.intent_id = (eq_iff row.intent_id r.intent_id).0 same in
          let made : r.created_at ≡ row.created_at = h (map_row json row) (rw (same) refl) in
          rw (same) (ap (λ q. (row.intent_id, q) ∷ view rows) (map_row-overwrite r row key made))
      | inr other ↦ rw (other) (
          ap (λ m. (row.intent_id, map_row json row) ∷ m)
            (view-upsert r rows (λ q e. h q (rw (other) e))))
    ]

    find_one-intent_id :
        (id : String) (rows : List (PgRow Json)) (q : IntentLifecycleRecord)
        → find_one json id rows ≡ some q
        → q.intent_id ≡ id
    unfolding find_one
    find_one-intent_id id [] q e = cc e
    find_one-intent_id id (row ∷ rows) q e = elim (Bool-cases (str_eq row.intent_id id)) [
      | inl same ↦
          ap (λ x. x.intent_id) (sym (some-injective (map_row json row) q (rw (same) at e)))
          ∙ (eq_iff row.intent_id id).0 same
      | inr other ↦ find_one-intent_id id rows q (rw (other) at e)
    ]

    apply_hop-kept :
        (existing : Option IntentLifecycleRecord) (id : String) (hop : IntentHop)
        (details : HopDetails) (now : ℕ)
        → ((q : IntentLifecycleRecord) → existing ≡ some q → q.intent_id ≡ id)
        → ((apply_hop existing id hop details now).intent_id ≡ id)
          × ((q : IntentLifecycleRecord)
              → existing ≡ some q
              → (apply_hop existing id hop details now).created_at ≡ q.created_at)
    unfolding apply_hop
    apply_hop-kept none id hop details now h = (refl, λ q e. cc e)
    apply_hop-kept (some r) id hop details now h =
        (h r refl, λ q e. ap (λ x. x.created_at) (some-injective r q e))

    pg_record_hop-view :
        (now : ℕ) (id : String) (hop : IntentHop) (details : HopDetails)
        (read rows : List (PgRow Json))
        → find_one json id read ≡ find_one json id rows
        → view (pg_record_hop json now id hop details read rows)
          ≡ record_hop now id hop details (view rows)
    unfolding pg_record_hop record_hop
    pg_record_hop-view now id hop details read rows as_read = rw (as_read) (
        let r = apply_hop (find_one json id rows) id hop details now in
        let (key, made) =
          apply_hop-kept (find_one json id rows) id hop details now
            (λ q e. find_one-intent_id id rows q e) in
        view-upsert r rows (λ q e. made q (ap (λ k. find_one json k rows) (sym key) ∙ e))
        ∙ ap (λ k. insert k r (view rows)) key
        ∙ ap (λ q. insert id (apply_hop q id hop details now) (view rows))
            (sym (lookup-view id rows)))

    pg_report-view :
        (es : List PgReport) (rows : List (PgRow Json))
        → IsUndisturbed es rows
        → view (pg_report es rows) ≡ report (reports es) (view rows)
    pg_report-view [] rows h = refl
    pg_report-view (e ∷ es) rows (here, rest) =
        pg_report-view es (pg_write e rows) rest
        ∙ ap (report (reports es)) (
            pg_record_hop-view e.report.at e.report.id e.report.hop e.report.details e.read rows
              here)

-- If hops are reported so that at the write of each report its intent's row is as the report read it,
-- and JSON gives back the hops that were written, then the rows stand for the map that the in-memory
-- store has after the same reports, and an intent's commitment is the same in both. Reports of other
-- intents may come between the read and the write.
pub pg_report-refines :
    {Json : Type 0} (json : JsonCodec Json) (es : List (PgReport json)) (rows : List (PgRow Json))
    (id : String)
    → IsFaithful json
    → IsUndisturbed json es rows
    → (view json (pg_report json es rows) ≡ report (reports json es) (view json rows))
      × (pg_get_commitment json id (pg_report json es rows)
          ≡ get_commitment id (report (reports json es) (view json rows)))
unfolding pg_get_commitment get_commitment
pg_report-refines json es rows id faithful undisturbed =
    let same = pg_report-view json faithful es rows undisturbed in
    (
      same,
      ap commitment_of (sym (lookup-view json id (pg_report json es rows)) ∙ ap (lookup id) same),
    )
