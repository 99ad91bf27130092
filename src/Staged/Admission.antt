-- ===== src/Staged/Admission.antt =====
-- Admission control of the byte upsert (relayer/src/staged/staged-intent.store.ts, `upsertBytes`).
use bosphor.Base.{
  ℕ, String, Bool, not, ◌+◌, ◌≤◌, ◌≡◌, ◌⊎◌, inl, inr, refl, Option, none, some, [], ◌∷◌, true,
  false, arith, if◌then◌else◌, Option-cases, sum_by,
}
use bosphor.Staged.Types.{Row, StagedBytes, UpsertOutcome, is_active}
use bosphor.Staged.Table.{
  Table, find, update, has_id, Keyed, str_eq_self, find-none_of_str_eq, find-update_self,
}
use bosphor.Staged.Store.{
  held, staged_bytes_total, staged_bytes_total_excluding, admits, merge_bytes, upsert_then,
  upsert_bytes,
}

abbrev others : String → Row → ℕ
others id r = if has_id id r then 0 else held r

others-sum_of_none :
    (id : String) (t : Table) → find id t ≡ none → sum_by (others id) t ≡ sum_by held t
others-sum_of_none id [] h = refl
others-sum_of_none id (r ∷ t) h = ground (arith, others-sum_of_none id t)

sum-update_of_none :
    (id : String) (f : Row → Row) (t : Table)
    → find id t ≡ none
    → sum_by held (update id f t) ≡ sum_by (others id) t
sum-update_of_none id f [] h = refl
sum-update_of_none id f (r ∷ t) h = ground (arith, sum-update_of_none id f t)

-- In a keyed table the total is the row's own share and the others'.
sum-held-update :
    (id : String) (f : Row → Row) (t : Table) (r : Row)
    → Keyed t
    → find id t ≡ some r
    → sum_by held (update id f t) ≡ held (f r) + sum_by (others id) t
sum-held-update id f [] r k h = ground arith
sum-held-update id f (s ∷ t) r (fresh, k) h = ground (
  arith,
  sum-update_of_none id f t,
  sum-held-update id f t r k,
  find-none_of_str_eq s.intent_id id t,
)

-- A table within the cap is within the cap after any byte upsert, accepted or refused.
pub staged_bytes_total-upsert_bytes-le :
    (now : ℕ) (id : String) (blob : StagedBytes) (limit : ℕ) (t : Table)
    → Keyed t
    → staged_bytes_total t ≤ limit
    → staged_bytes_total (upsert_bytes now id blob (some limit) t).1 ≤ limit
unfolding staged_bytes_total upsert_bytes
staged_bytes_total-upsert_bytes-le now id blob limit t k h = elim (Option-cases (find id t)) [
  | inl e ↦ ground (arith, others-sum_of_none id t e)
  | inr (r, e) ↦ ground (arith, sum-held-update id (merge_bytes now blob) t r k e)
]

-- The row that an accepted upsert leaves under the id.
abbrev pub HoldsBytes : StagedBytes → Option Row → Type 0
HoldsBytes blob none = ⊥
HoldsBytes blob (some r) =
    (r.bytes ≡ some blob.bytes)
    × (r.blob_id ≡ some blob.blob_id)
    × (r.size ≡ some blob.size)
    × (is_active r.state ≡ true)

abbrev pub is_settled : Option Row → Bool
is_settled none = false
is_settled (some r) = not (is_active r.state)

-- What each outcome says of the table and of the cap.
abbrev pub Outcome : String → StagedBytes → Option ℕ → Table → UpsertOutcome × Table → Type 0
Outcome id blob limit t (UpsertOutcome.accepted, u) = HoldsBytes blob (find id u)
Outcome id blob limit t (UpsertOutcome.backpressure, u) =
    (u ≡ t) × (admits limit (staged_bytes_total_excluding id t) blob.size ≡ false)
Outcome id blob limit t (UpsertOutcome.terminal, u) = (u ≡ t) × (is_settled (find id t) ≡ true)

-- With nothing between the two queries, `backpressure` and `terminal` say why the write was refused.
pub upsert_bytes-Outcome :
    (now : ℕ) (id : String) (blob : StagedBytes) (limit : Option ℕ) (t : Table)
    → Outcome id blob limit t (upsert_bytes now id blob limit t)
unfolding upsert_bytes
upsert_bytes-Outcome now id blob limit t = elim (Option-cases (find id t)) [
  | inl e ↦ ground (arith, str_eq_self id)
  | inr (r, e) ↦ ground (arith, find-update_self id (merge_bytes now blob) (λ r. refl) t r e)
]

-- What each outcome says, where the second query reads the total `later`.
abbrev pub LaterOutcome :
    ℕ → String → StagedBytes → Option ℕ → Table → UpsertOutcome × Table → Type 0
LaterOutcome later id blob limit t (UpsertOutcome.accepted, u) = HoldsBytes blob (find id u)
LaterOutcome later id blob limit t (UpsertOutcome.backpressure, u) =
    (u ≡ t) × (admits limit later blob.size ≡ false)
LaterOutcome later id blob limit t (UpsertOutcome.terminal, u) =
    (u ≡ t)
    × (admits limit later blob.size ≡ true)
    × ((is_settled (find id t) ≡ true)
        ⊎ (admits limit (staged_bytes_total_excluding id t) blob.size ≡ false))

-- Whatever the cap, and whatever total the second query reads: an accepted upsert leaves an active row
-- with exactly these bytes, blob id and size under the id; a refusal changes nothing; `backpressure` is
-- only said when the total then read passes the cap; and `terminal` only when it does not and, at the
-- write, the row was settled or the total then passed the cap.
pub upsert_then-Outcome :
    (later now : ℕ) (id : String) (blob : StagedBytes) (limit : Option ℕ) (t : Table)
    → LaterOutcome later id blob limit t (upsert_then later now id blob limit t)
upsert_then-Outcome later now id blob limit t = elim (Option-cases (find id t)) [
  | inl e ↦ ground (arith, str_eq_self id)
  | inr (r, e) ↦ ground (arith, find-update_self id (merge_bytes now blob) (λ r. refl) t r e)
]
