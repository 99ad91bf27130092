-- ===== src/Processor/Engine/Rows.antt =====
-- A claim of the queue hands out no intent twice.
use bosphor.Base.{
  ℕ, String, Bool, false, ◌||◌, ◌≡◌, refl, ap, ◌∙◌, Option, none, some, List, [], ◌∷◌, map, select,
  leb, str_eq, order_by, insert_by, Bool-cases, inl, inr, arith,
}
use bosphor.Staged.Types.{Row, StagedIntentRow, map_row}
use bosphor.Staged.Table.{Table, find, Keyed, update_where, update_where-Keyed}
use bosphor.Staged.Claim.{drain_due, picked_by, is_picked, stamp}
use bosphor.Processor.Engine.{has}
use bosphor.Processor.Engine.Sets.{Distinct, str_eq_comm}

abbrev pub row_ids : List StagedIntentRow → List String
row_ids rows = map (λ r. r.intent_id) rows

-- The rows that an answer may have: those of a claim, by anyone and at any time, from a table.
abbrev pub OfQueue : Option (List StagedIntentRow) → Type 0
OfQueue none = Unit
OfQueue (some rows) =
    (t : Table) × (now : ℕ) × (limit : ℕ) × (who : String) × (lease_ms : ℕ) × (locked : String
      → Bool)
    × Keyed t
    × (rows ≡ (drain_due now limit who lease_ms locked t).0)

has-find : (id : String) (t : Table) → find id t ≡ none → has id (row_ids (map map_row t)) ≡ false
has-find id [] h = refl
has-find id (r ∷ t) h = ground (arith, has-find id t)

Keyed-Distinct : (t : Table) → Keyed t → Distinct (row_ids (map map_row t))
Keyed-Distinct [] h = tt
Keyed-Distinct (r ∷ t) (h, hs) = (has-find r.intent_id t h, Keyed-Distinct t hs)

find-select :
    (p : Row → Bool) (id : String) (t : Table) → find id t ≡ none → find id (select p t) ≡ none
find-select p id [] h = refl
find-select p id (r ∷ t) h = ground (arith, find-select p id t)

select-Keyed : (p : Row → Bool) (t : Table) → Keyed t → Keyed (select p t)
select-Keyed p [] h = tt
select-Keyed p (r ∷ t) (h, hs) = elim (Bool-cases (p r)) [
  | inl taken ↦ rw taken ((find-select p r.intent_id t h, select-Keyed p t hs))
  | inr passed ↦ rw passed (select-Keyed p t hs)
]

module _ (key : StagedIntentRow → ℕ) where
  has-insert_by :
      (id : String) (r : StagedIntentRow) (rows : List StagedIntentRow)
      → has id (row_ids (insert_by key r rows)) ≡ (str_eq r.intent_id id || has id (row_ids rows))
  unfolding insert_by
  has-insert_by id r [] = refl
  has-insert_by id r (s ∷ rows) = ground (arith, has-insert_by id r rows)

  Distinct-insert_by :
      (r : StagedIntentRow) (rows : List StagedIntentRow)
      → has r.intent_id (row_ids rows) ≡ false
      → Distinct (row_ids rows)
      → Distinct (row_ids (insert_by key r rows))
  unfolding insert_by
  Distinct-insert_by r [] h d = (refl, tt)
  Distinct-insert_by r (s ∷ rows) h (d, ds) = elim (Bool-cases (leb (key r) (key s))) [
    | inl first ↦ rw first ((h, (d, ds)))
    | inr later ↦ rw later (
        (
          ground (arith, has-insert_by s.intent_id r rows, str_eq_comm r.intent_id s.intent_id),
          Distinct-insert_by r rows (ground arith) ds,
        ))
  ]

  has-order_by :
      (id : String) (rows : List StagedIntentRow)
      → has id (row_ids (order_by key rows)) ≡ has id (row_ids rows)
  unfolding order_by
  has-order_by id [] = refl
  has-order_by id (r ∷ rows) =
      has-insert_by id r (order_by key rows)
      ∙ ap (λ b. str_eq r.intent_id id || b) (has-order_by id rows)

  Distinct-order_by :
      (rows : List StagedIntentRow)
      → Distinct (row_ids rows)
      → Distinct (row_ids (order_by key rows))
  unfolding order_by
  Distinct-order_by [] d = tt
  Distinct-order_by (r ∷ rows) (d, ds) =
      Distinct-insert_by r (order_by key rows) (has-order_by r.intent_id rows ∙ d)
        (Distinct-order_by rows ds)

pub drain_due-Distinct :
    (now limit : ℕ) (who : String) (lease_ms : ℕ) (locked : String → Bool) (t : Table)
    → Keyed t
    → Distinct (row_ids (drain_due now limit who lease_ms locked t).0)
unfolding drain_due
drain_due-Distinct now limit who lease_ms locked t k =
    let picked = is_picked (picked_by now limit who locked t) in
    let claimed = update_where picked (stamp now who lease_ms) t in
    Distinct-order_by (λ r. r.created_at) (map map_row (select picked claimed))
      (Keyed-Distinct (select picked claimed) (
        select-Keyed picked claimed
          (update_where-Keyed picked (stamp now who lease_ms) (λ r. refl) t k)))
