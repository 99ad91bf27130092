-- ===== src/Processor/Outcome/Rows.antt =====
-- The stages that an attempt of relayer/src/intent/intent.processor.ts takes its row through, and the
-- queue's writes between them.
use bosphor.Base.{
  str_eq, count_if, ℕ, String, Bool, none, List, ◌∷◌, ◌+◌, ◌≡◌, refl, ap, ◌∙◌, ◌⊎◌, inl, inr, true,
  false, arith, is_some, if◌then◌else◌,
}
use bosphor.Staged.Types.{Row, StagedIntentRow, StagedState, UploadResult}
use bosphor.Staged.Table.{Table, RowIs, update-RowIs, str_eq_self}
use bosphor.Staged.Progress.{
  persist_upload, persist_store, mark_returned, free_bytes, mark_done, mark_dead, mark_ledgered,
}
use bosphor.Processor.World.{World, Event, Failure, plain, post}
use bosphor.Processor.Triple.{On}

abbrev pub is_post : Failure → Bool
is_post (post _) = true
is_post _ = false

-- The blob is on Walrus and recorded on Sui, and the bytes are freed.
abbrev pub IsSafe : Row → Type 0
IsSafe r = (is_some r.walrus_object_id ≡ true) × (is_some r.store_digest ≡ true) × (r.bytes ≡ none)

abbrev pub IsDone : Row → Type 0
IsDone r = (r.state ≡ StagedState.done) × IsSafe r × (r.returned ≡ true)

abbrev pub IsDead : Row → Type 0
IsDead r = (r.state ≡ StagedState.dead) × (r.bytes ≡ none)

abbrev pub IsEnded : Row → Type 0
IsEnded r = IsDone r ⊎ IsDead r

-- Uploads of an intent's blob in a trace.
abbrev pub is_upload_of : {U : Type 0} → String → Event U → Bool
is_upload_of id (Event.uploaded key _) = str_eq key id
is_upload_of id _ = false

unfoldable pub uploads : {U : Type 0} → String → List (Event U) → ℕ
uploads id trace = count_if (is_upload_of id) trace

-- Uploads whose object id `persistUpload` did not get into the row.
abbrev pub is_unrecorded_of : {U : Type 0} → String → Event U → Bool
is_unrecorded_of id (Event.upload_unrecorded key) = str_eq key id
is_unrecorded_of id _ = false

unfoldable pub unrecorded : {U : Type 0} → String → List (Event U) → ℕ
unrecorded id trace = count_if (is_unrecorded_of id) trace

abbrev pub IsQuiet : {U : Type 0} → String → Event U → Type 0
IsQuiet id e = (is_upload_of id e ≡ false) × (is_unrecorded_of id e ≡ false)

-- The trace has as many uploads of the row's blob as `persistUpload` was refused, and one more if
-- the row has an object id.
abbrev pub Tally : {U : Type 0} → String → List (Event U) → Row → Type 0
Tally id trace r =
    uploads id trace ≡ unrecorded id trace + (if is_some r.walrus_object_id then 1 else 0)

module _ (row : StagedIntentRow) where
  abbrev pub Is : {U : Type 0} → (Row → Type 0) → World U → Type 0
  Is P = On (λ t trace. RowIs row.intent_id (λ r. P r × Tally row.intent_id trace r) t)

  -- The row is as the attempt's snapshot says, in what the attempt skips by.
  abbrev pub Matches : Row → Type 0
  Matches r =
      (is_some r.walrus_object_id ≡ is_some row.walrus_object_id)
      × (is_some r.store_digest ≡ is_some row.store_digest)
      × (r.returned ≡ row.returned)

  abbrev pub IsStored : Row → Type 0
  IsStored r =
      (is_some r.walrus_object_id ≡ true)
      × (is_some r.store_digest ≡ is_some row.store_digest)
      × (r.returned ≡ row.returned)

  abbrev pub IsRecorded : Row → Type 0
  IsRecorded r =
      (is_some r.walrus_object_id ≡ true)
      × (is_some r.store_digest ≡ true)
      × (r.returned ≡ row.returned)

  abbrev pub IsFreed : Row → Type 0
  IsFreed r = IsSafe r × (r.returned ≡ row.returned)

  abbrev pub IsProved : Row → Type 0
  IsProved r = IsSafe r × (r.returned ≡ true)

  abbrev pub IsThere : Row → Type 0
  IsThere r = Unit {0}

  -- After a failure the tally stands, and one of the phase `post` is only thrown once the blob is safe.
  pub record SafeIfPost {U : Type 0} (e : Failure) (w : World U) : Type 0 where
    pub counted : Is IsThere w
    pub safe : is_post e ≡ true → Is IsSafe w

  pub any_row : {U : Type 0} (P : Row → Type 0) (w : World U) → Is P w → Is IsThere w
  any_row P w k = record { fact = let (r, found, (_, n)) = k.fact in (r, found, (tt, n)) }

  pub not_post :
      {U : Type 0} (P : Row → Type 0) (m : String) (w : World U) → Is P w → SafeIfPost (plain m) w
  not_post P m w k = record { counted = any_row P w k; safe = λ p. cc }

  -- What each write makes of the row.
  module _ {U : Type 0} (trace : List (Event U)) where
    pub IsRecorded-row :
        (now : ℕ) (digest : String) (t : Table)
        → RowIs row.intent_id (λ r. IsStored r × Tally row.intent_id trace r) t
        → RowIs row.intent_id
            (λ r. IsRecorded r × Tally row.intent_id trace r)
            (persist_store now row.intent_id digest t)
    unfolding persist_store
    IsRecorded-row now digest t =
        update-RowIs row.intent_id _ (λ _. refl) _ _ t (λ r h. ((h.0.0, refl, h.0.2), h.1))

    pub IsFreed-row :
        (now : ℕ) (t : Table)
        → RowIs row.intent_id (λ r. IsRecorded r × Tally row.intent_id trace r) t
        → RowIs row.intent_id
            (λ r. IsFreed r × Tally row.intent_id trace r)
            (free_bytes now row.intent_id t)
    unfolding free_bytes
    IsFreed-row now t =
        update-RowIs row.intent_id _ (λ _. refl) _ _ t (λ r h. (((h.0.0, h.0.1, refl), h.0.2), h.1))

    pub returned_row :
        (now : ℕ) (t : Table)
        → RowIs row.intent_id (λ r. IsFreed r × Tally row.intent_id trace r) t
        → RowIs row.intent_id
            (λ r. IsProved r × Tally row.intent_id trace r)
            (mark_returned now row.intent_id t)
    unfolding mark_returned
    returned_row now t =
        update-RowIs row.intent_id _ (λ _. refl) _ _ t (λ r h. ((h.0.0, refl), h.1))

    pub done_row :
        (now : ℕ) (t : Table)
        → RowIs row.intent_id (λ r. IsProved r × Tally row.intent_id trace r) t
        → RowIs row.intent_id
            (λ r. IsEnded r × Tally row.intent_id trace r)
            (mark_done now row.intent_id t)
    unfolding mark_done
    done_row now t =
        update-RowIs row.intent_id _ (λ _. refl) _ _ t
          (λ r h. (inl (refl, (h.0.0.0, h.0.0.1, refl), h.0.1), h.1))

    pub dead_row :
        (now : ℕ) (why : String) (t : Table)
        → RowIs row.intent_id (λ r. Matches r × Tally row.intent_id trace r) t
        → RowIs row.intent_id
            (λ r. IsEnded r × Tally row.intent_id trace r)
            (mark_dead now row.intent_id why t)
    unfolding mark_dead
    dead_row now why t =
        update-RowIs row.intent_id _ (λ _. refl) _ _ t (λ r h. (inr (refl, refl), h.1))

    pub ledgered_row :
        (t : Table)
        → RowIs row.intent_id (λ r. IsRecorded r × Tally row.intent_id trace r) t
        → RowIs row.intent_id
            (λ r. IsRecorded r × Tally row.intent_id trace r)
            (mark_ledgered row.intent_id t)
    unfolding mark_ledgered
    ledgered_row t = update-RowIs row.intent_id _ (λ _. refl) _ _ t (λ r h. h)

    -- The upload is in the trace, and its object id is not yet in the row.
    abbrev pub IsOpen : Row → Type 0
    IsOpen r = (Matches r) × (uploads row.intent_id trace ≡ unrecorded row.intent_id trace + 1)

    pub uploaded_row :
        (now : ℕ) (up : UploadResult) (t : Table)
        → RowIs row.intent_id IsOpen t
        → RowIs row.intent_id
            (λ r. IsStored r × Tally row.intent_id trace r)
            (persist_upload now row.intent_id up t)
    unfolding persist_upload
    uploaded_row now up t =
        update-RowIs row.intent_id _ (λ _. refl) _ _ t (λ r h. ((refl, h.0.1, h.0.2), h.1))

  -- Any other event leaves the tally as it is.
  pub quiet_row :
      {U : Type 0} (P : Row → Type 0) (e : Event U) (t : Table) (trace : List (Event U))
      → IsQuiet row.intent_id e
      → RowIs row.intent_id (λ r. P r × Tally row.intent_id trace r) t
      → RowIs row.intent_id (λ r. P r × Tally row.intent_id (e ∷ trace) r) t
  unfolding uploads unrecorded
  quiet_row P e t trace (q, l) (r, found, (p, n)) = (r, found, (p, ground arith))

  pub IsOpen-row :
      {U : Type 0} (epochs : ℕ) (t : Table) (trace : List (Event U))
      → row.walrus_object_id ≡ none
      → RowIs row.intent_id (λ r. Matches r × Tally row.intent_id trace r) t
      → RowIs row.intent_id (IsOpen (Event.uploaded row.intent_id epochs ∷ trace)) t
  unfolding uploads unrecorded
  IsOpen-row epochs t trace e (r, found, (m, n)) =
      (r, found, (m, ground (arith, str_eq_self row.intent_id)))

  -- An upload that the row knows nothing of is tallied as such.
  pub unrecorded_row :
      {U : Type 0} (m : String) (w : World U)
      → row.walrus_object_id ≡ none
      → On (λ t trace. RowIs row.intent_id (IsOpen trace) t) w
      → SafeIfPost (plain m) (record w { trace = Event.upload_unrecorded row.intent_id ∷ w.trace })
  unfolding uploads unrecorded
  unrecorded_row m w e k = record {
    counted = record {
      fact =
          let (r, found, (same, n)) = k.fact in
          let without : is_some r.walrus_object_id ≡ false = same.0 ∙ ap is_some e in
          (r, found, (tt, rw (without) (ground (arith, n, str_eq_self row.intent_id))));
    };
    safe = λ p. cc p;
  }
