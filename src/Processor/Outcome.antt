-- ===== src/Processor/Outcome.antt =====
-- How an attempt ends: `store` of relayer/src/intent/intent.processor.ts leaves a row that it
-- returns from settled, and a return-leg failure leaves the blob stored and recorded.
pub mod Rows
pub mod Late
use bosphor.Base.{
  ℕ, String, Bool, Option, none, some, List, ◌≡◌, refl, ap, ◌∙◌, ◌⊎◌, inl, inr, Option-cases, true,
  false, not, ◌&&◌, arith, is_some, if◌then◌else◌,
}
use bosphor.Base.Result.{Result, ok, err}
use bosphor.Staged.Types.{Row, StagedIntentRow, StagedState, UploadResult, Bytes}
use bosphor.Staged.Table.{Table, find, RowIs, update-RowIs}
use bosphor.Staged.Progress.{
  persist_upload, persist_store, mark_returned, free_bytes, mark_done, mark_dead, mark_ledgered,
  fetch_bytes,
}
use bosphor.Lifecycle.{IntentCommitment}
use bosphor.Ledger.{already_recorded}
use bosphor.Ledger.Laws.{record_completed_store-table}
use bosphor.Walrus.StoreEpochs.{StoreEpochsResolution, resolved, rejected, resolve}
use bosphor.Processor.World.{
  M, Env, Config, World, Event, Failure, plain, post, timeout, ◌>>=◌, ◌>>◌, pure, throw, call,
  catch, emit, write, track_hop, BreakEvenDecision, BreakEvenCheck, EscrowInfo,
}
use bosphor.Processor.Triple.{
  Triple, On, Ends, Triple-bind, Triple-catch, Triple-pure, Triple-throw, Triple-call, Triple-if,
  Triple-write, Triple-persist, Triple-read, Triple-emit, Triple-track_hop,
}
use bosphor.Processor.Frame.{KeepsQueue-return_leg}
use bosphor.Processor.Store.{
  is_committed, verify_blob_id, resolve_epochs, judge, guard_with, guard, upload_bytes, upload_step,
  upload_unless, fetch, stored, take_resolution, execute, record_step, record_unless, message,
  says_already_executed,
}
use bosphor.Processor.Return.{return_leg, return_step}
use bosphor.Processor.Attempt.{
  unless_stopped, or_stop, completed, record_completed, ledger_step, book, finish, settle, spend,
  store,
}
use Rows.{
  is_post, IsSafe, IsDone, IsDead, IsEnded, Is, Matches, IsStored, IsRecorded, IsFreed, IsProved,
  SafeIfPost, uploaded_row, IsRecorded-row, IsFreed-row, returned_row, done_row, dead_row,
  ledgered_row, quiet_row, IsOpen-row, unrecorded_row, any_row, not_post, Tally, IsOpen,
}
use Late.{Triple-settle}

module _ {U : Type 0} (config : Config) (env : Env U) (row : StagedIntentRow) (sender : String)
    (commitment : Option IntentCommitment) where
  Triple-upload_bytes :
      (epochs : ℕ) (bytes : Option Bytes)
      → row.walrus_object_id ≡ none
      → Triple
          (Is row (Matches row))
          (upload_bytes config env row sender commitment epochs bytes)
          (λ _. Is row (IsStored row))
          (SafeIfPost row)
  unfolding upload_bytes
  Triple-upload_bytes epochs none e = Triple-throw _ (λ w k. not_post row (Matches row) _ w k)
  Triple-upload_bytes epochs (some bytes) e =
      Triple-bind _ _ (Triple-call _ (λ _ _ _ k. k) (λ m w k. not_post row (Matches row) m w k))
        (λ info.
          Triple-bind _ _
            (Triple-emit {q = λ t tr. RowIs row.intent_id (IsOpen row tr) t} _
              (λ t tr k. IsOpen-row row epochs t tr e k))
            (λ _.
              Triple-bind _ _
                (Triple-persist env row.intent_id _
                  (λ now t tr k. uploaded_row row tr now (stored info) t k)
                  (λ m w k. unrecorded_row row m w e k))
                (λ _. Triple-pure _ (λ w k. k))))

  Triple-upload_step :
      (epochs : ℕ)
      → Triple
          (Is row (Matches row))
          (upload_step config env row sender commitment epochs)
          (λ _. Is row (IsStored row))
          (SafeIfPost row)
  unfolding upload_step upload_unless fetch
  Triple-upload_step epochs = unless row.walrus_object_id refl
    where
      unless :
          (o : Option String)
          → row.walrus_object_id ≡ o
          → Triple
              (Is row (Matches row))
              (upload_unless config env row sender commitment o epochs)
              (λ _. Is row (IsStored row))
              (SafeIfPost row)
      unless none e =
          Triple-bind {R = λ _. Is row (Matches row)} _ _
            (Triple-read _ _ (λ _ _ k. k) (λ m w k. not_post row (Matches row) m w k))
            (λ bytes. Triple-upload_bytes epochs bytes e)
      unless (some object) e = Triple-pure _ (λ w k. record {
        fact = let (r, found, ((a, b, c), n)) = k.fact in (r, found, ((a ∙ ap is_some e, b, c), n));
      })

  Triple-spend :
      (epochs : ℕ) (d : Option (BreakEvenDecision U))
      → Triple
          (Is row (Matches row))
          (spend config env row sender commitment epochs d)
          (λ _. Is row IsEnded)
          (SafeIfPost row)
  unfolding spend
  Triple-spend epochs d =
      Triple-bind _ _ (Triple-emit _ (λ t tr k. quiet_row row (Matches row) _ t tr (refl, refl) k))
        (λ _. Triple-bind _ _ (Triple-track_hop env _ _ _) (λ _.
          Triple-bind _ _ (Triple-upload_step epochs) (λ up.
            Triple-bind _ _ (Triple-track_hop env _ _ _)
              (λ _. Triple-settle config env row sender commitment up d))))

  -- After a step that may stop: the row matches, or it is dead.
  abbrev Stops : {A : Type 0} → Option A → World U → Type 0
  Stops none = Is row IsEnded
  Stops (some a) = Is row (Matches row)

  Triple-verify_blob_id :
      Triple
        (Is row (Matches row))
        (verify_blob_id config env row sender commitment)
        Stops
        (SafeIfPost row)
  unfolding verify_blob_id
  Triple-verify_blob_id =
      Triple-if (is_committed config env row sender commitment) _ _ (λ _. Triple-pure _ (λ w k. k))
        (λ _.
          Triple-bind _ _
            (Triple-write env _ (λ now t tr k. dead_row row tr now _ t k)
              (λ _ m _ w k. not_post row (Matches row) m w k))
            (λ _. Triple-pure none (λ w k. k)))

  Triple-take_resolution :
      (x : StoreEpochsResolution)
      → Triple
          (Is row (Matches row))
          (take_resolution config env row sender commitment x)
          Stops
          (SafeIfPost row)
  unfolding take_resolution
  Triple-take_resolution (resolved epochs _) = Triple-pure _ (λ w k. k)
  Triple-take_resolution (rejected _) =
      Triple-if (is_some row.walrus_object_id) _ _ (λ _. Triple-pure _ (λ w k. k))
        (λ _.
          Triple-bind _ _
            (Triple-write env _ (λ now t tr k. dead_row row tr now _ t k)
              (λ _ m _ w k. not_post row (Matches row) m w k))
            (λ _.
              Triple-bind _ _
                (Triple-emit _ (λ t tr k. quiet_row row IsEnded _ t tr (refl, refl) k))
                (λ _. Triple-pure none (λ w k. k))))

  Triple-resolve_epochs :
      Triple
        (Is row (Matches row))
        (resolve_epochs config env row sender commitment)
        Stops
        (SafeIfPost row)
  unfolding resolve_epochs
  Triple-resolve_epochs =
      Triple-bind _ _ (Triple-call _ (λ _ _ _ k. k) (λ m w k. not_post row (Matches row) m w k))
        (λ x. Triple-take_resolution x)

  Triple-judge :
      (check : BreakEvenCheck → Result String (BreakEvenDecision U)) (epochs : ℕ)
      (escrow : Option EscrowInfo)
      → Triple
          (Is row (Matches row))
          (judge config env row sender commitment check epochs escrow)
          Stops
          (SafeIfPost row)
  unfolding judge
  Triple-judge check epochs none = Triple-pure _ (λ w k. k)
  Triple-judge check epochs (some escrow) =
      Triple-bind _ _ (Triple-call _ (λ _ _ _ k. k) (λ m w k. not_post row (Matches row) m w k))
        (λ decision.
          Triple-if decision.proceed _ _ (λ _. Triple-pure _ (λ w k. k))
            (λ _.
              Triple-bind _ _
                (Triple-write env _ (λ now t tr k. dead_row row tr now _ t k)
                  (λ _ m _ w k. not_post row (Matches row) m w k))
                (λ _.
                  Triple-bind _ _
                    (Triple-emit _ (λ t tr k. quiet_row row IsEnded _ t tr (refl, refl) k))
                    (λ _. Triple-pure none (λ w k. k)))))

  Triple-guard :
      (epochs : ℕ)
      → Triple
          (Is row (Matches row))
          (guard config env row sender commitment epochs)
          Stops
          (SafeIfPost row)
  unfolding guard
  Triple-guard epochs =
      Triple-if (config.break_even_enabled && not (is_some row.walrus_object_id)) _ _
        (λ _. installed env.break_even env.escrow_reader) (λ _. Triple-pure _ (λ w k. k))
    where
      installed :
          (c : Option (BreakEvenCheck → Result String (BreakEvenDecision U)))
          (r : Option (String → Option ℕ → Result String (Option EscrowInfo)))
          → Triple
              (Is row (Matches row))
              (guard_with config env row sender commitment c r epochs)
              Stops
              (SafeIfPost row)
      installed none r = Triple-pure _ (λ w k. k)
      installed (some c) none = Triple-pure _ (λ w k. k)
      installed (some c) (some r) =
          Triple-bind _ _ (Triple-call _ (λ _ _ _ k. k) (λ m w k. not_post row (Matches row) m w k))
            (λ escrow. Triple-judge c epochs escrow)

  module _ {A : Type 0} (k : A → M U (Unit {0}))
      (next : (a : A)
        → Triple (Is row (Matches row)) (k a) (λ _. Is row IsEnded) (SafeIfPost row)) where
    stopped :
        (o : Option A)
        → Triple (Stops o) (unless_stopped k o) (λ _. Is row IsEnded) (SafeIfPost row)
    stopped none = Triple-pure tt (λ w h. h)
    stopped (some a) = next a

    Triple-or_stop :
        (m : M U (Option A))
        → Triple (Is row (Matches row)) m Stops (SafeIfPost row)
        → Triple (Is row (Matches row)) (or_stop m k) (λ _. Is row IsEnded) (SafeIfPost row)
    Triple-or_stop m t = Triple-bind m _ t stopped

  -- From a state where the row is in the queue as the attempt's snapshot says, `store` either returns
  -- with the row done (blob and digest persisted, proof returned, bytes freed) or dead (bytes freed),
  -- or it throws; and a failure of the phase `post` is thrown only when the blob and the digest are
  -- persisted and the bytes are freed. In each case the trace has one upload of the blob more than
  -- `persistUpload` was refused if the row has an object id, and as many as it was refused otherwise,
  -- provided it had before. This holds whatever the services and the queue answer.
  pub store-Ends :
      (w : World U)
      → Is row (Matches row) w
      → Ends (λ _. Is row IsEnded) (SafeIfPost row) (store config env row sender commitment w)
  unfolding store
  store-Ends w h =
      (Triple-or_stop _
          (λ _.
            Triple-or_stop _
              (λ epochs. Triple-or_stop _ (λ d. Triple-spend epochs d) _ (Triple-guard epochs)) _
              Triple-resolve_epochs)
          _ Triple-verify_blob_id).at
        w h
