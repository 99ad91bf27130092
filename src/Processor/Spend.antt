-- ===== src/Processor/Spend.antt =====
-- What must hold before an attempt spends anything (relayer/src/intent/intent.processor.ts, steps 1,
-- 1a and 1b of `store`).
pub mod Checks
pub mod Gate
use mathlib.Core.Path.{subst}
use mathlib.Core.Option.{some-injective}
use bosphor.Base.{
  sym, ap, ◌∙◌, ℕ, String, Bool, Option, none, some, List, [], ◌∷◌, ◌≤◌, ◌≡◌, refl, true, false,
  not, ◌&&◌, arith, is_some, All, max, or_else,
}
use bosphor.Base.Result.{Result, ok, err}
use bosphor.Staged.Types.{Bytes, StagedIntentRow, UploadResult}
use bosphor.Staged.Table.{Table}
use bosphor.Lifecycle.{IntentCommitment}
use bosphor.Ledger.{already_recorded}
use bosphor.Walrus.StoreEpochs.{
  StoreEpochsPolicy, StoreEpochsResolution, Number, Source, natural, resolved, rejected, resolve,
  resolve_store_epochs,
}
use bosphor.Processor.World.{
  M, Env, Config, World, Event, Failure, uploaded, wal_ensured, pure, throw, BreakEvenDecision,
  BreakEvenCheck, EscrowInfo,
}
use bosphor.Processor.Triple.{
  Triple, On, Ends, Triple-bind, Triple-catch, Triple-pure, Triple-throw, Triple-call, Triple-if,
  Triple-write, Triple-emit, Triple-track_hop, Triple-given,
}
use bosphor.Processor.Frame.{is_return, KeepsQueue, KeepsQueue-return_leg}
use bosphor.Processor.Store.{
  is_committed, committed_epochs, as_number, verify_blob_id, take_resolution, resolve_epochs, judge,
  guard_with, guard, upload_bytes, upload_unless, upload_step, fetch, execute, record_unless,
  record_step, message, says_already_executed,
}
use bosphor.Processor.Return.{return_step}
use bosphor.Processor.Attempt.{
  unless_stopped, or_stop, record_completed, ledger_step, book, finish, settle, spend, store,
}

module _ {U : Type 0} (config : Config) (env : Env U) (row : StagedIntentRow) (sender : String)
    (commitment : Option IntentCommitment) where
  abbrev pub IsCommitted : Type 0
  IsCommitted = is_committed config env row sender commitment ≡ true

  -- The duration covers the committed epochs, if they are known.
  abbrev pub CoversCommitted : ℕ → Type 0
  CoversCommitted epochs =
      (c : ℕ) → committed_epochs config env row sender commitment ≡ some c → c ≤ epochs

  abbrev pub question : ℕ → EscrowInfo → BreakEvenCheck
  question epochs escrow = record {
    escrow_native = escrow.escrow_native;
    origin_token = escrow.origin_token;
    size_bytes = or_else row.size 0;
    epochs = epochs;
    return_lz_fee_mist = config.guard_return_lz_fee_mist;
    sui_gas_mist = config.guard_sui_gas_mist;
  }

  -- If the guard is on and installed, and the escrow has terms, the guard said to go on.
  abbrev pub GuardAgrees : ℕ → Type 0
  GuardAgrees epochs =
      config.break_even_enabled ≡ true
      → (check : BreakEvenCheck → Result String (BreakEvenDecision U))
        (reader : String → Option ℕ → Result String (Option EscrowInfo)) (escrow : EscrowInfo)
      → env.break_even ≡ some check
      → env.escrow_reader ≡ some reader
      → reader row.intent_id row.src_eid ≡ ok (some escrow)
      → (d : BreakEvenDecision U) × (check (question epochs escrow) ≡ ok d) × (d.proceed ≡ true)

  -- An event is in the trace only if the bytes are the committed ones; an upload, only if besides its
  -- duration covers the commitment and the guard agreed to it.
  abbrev pub Clears : Event U → Type 0
  Clears e =
      IsCommitted
      × ((key : String) (epochs : ℕ)
          → e ≡ uploaded key epochs
          → CoversCommitted epochs × GuardAgrees epochs)

  abbrev pub Cleared : Table → List (Event U) → Type 0
  Cleared t trace = All Clears trace

  abbrev pub Keeps : {A : Type 0} → M U A → Type 0
  Keeps m = KeepsQueue Cleared m

  -- The steps after the checks.
  module _ (c : IsCommitted) where
    Keeps-execute : (up : UploadResult) → Keeps (execute config env row sender commitment up)
    unfolding execute
    Keeps-execute up =
        Triple-catch {F = λ _. On Cleared} _ _
          (Triple-bind _ _ (Triple-call _ (λ _ _ _ k. k) (λ _ _ k. k)) (λ digest.
            Triple-bind _ _ (Triple-emit _ (λ t tr k. ((c, λ key epochs e. cc), k))) (λ _.
              Triple-bind _ _ (Triple-call _ (λ _ _ _ k. k) (λ _ _ k. k))
                (λ _. Triple-pure _ (λ w k. k)))))
          (λ e.
            Triple-if (says_already_executed (message e)) (pure already_recorded) (throw e)
              (λ _. Triple-pure _ (λ w k. k)) (λ _. Triple-throw e (λ w k. k)))

    Keeps-record_unless :
        (o : Option String) (up : UploadResult)
        → Keeps (record_unless config env row sender commitment o up)
    unfolding record_unless
    Keeps-record_unless none up = Triple-bind _ _ (Keeps-execute up) (λ digest.
        Triple-bind _ _ (Triple-write {q = Cleared} env _ (λ now t tr k. k) (λ _ _ _ _ k. k))
          (λ _. Triple-pure digest (λ w k. k)))
    Keeps-record_unless (some digest) up = Triple-pure digest (λ w k. k)

    Keeps-return_step : (up : UploadResult) → Keeps (return_step config env row up)
    unfolding return_step
    Keeps-return_step up =
        Triple-if row.returned _ _ (λ e. Triple-pure tt (λ w k. k))
          (λ _.
            Triple-bind _ _
              (Triple-catch _ _
                (KeepsQueue-return_leg Cleared
                  (λ e q t tr k. ((c, λ key epochs same. ground arith), k)) config env row up)
                (λ e. Triple-throw _ (λ w k. k)))
              (λ _. Triple-write env _ (λ now t tr k. k) (λ _ _ _ _ k. k)))

    Keeps-book :
        (d : Option (BreakEvenDecision U)) → Keeps (book config env row sender commitment d)
    Keeps-book none = Triple-pure tt (λ w k. k)
    Keeps-book (some d) = Triple-emit _ (λ t tr k. ((c, λ key epochs e. cc), k))

    pub Keeps-settle :
        (up : UploadResult) (d : Option (BreakEvenDecision U))
        → Keeps (settle config env row sender commitment up d)
    unfolding settle record_step finish ledger_step record_completed
    Keeps-settle up d = Triple-bind _ _ (Keeps-record_unless row.store_digest up) (λ digest.
        Triple-bind _ _ (Triple-track_hop env _ _ _) (λ _.
          Triple-bind {R = λ _. On Cleared} _ _
            (Triple-if (not row.ledgered && env.ledger_installed)
              (record_completed config env row sender commitment up digest) (pure tt)
              (λ _. record { at = λ w k. record { fact = k.fact } })
              (λ _. Triple-pure tt (λ w k. k)))
            (λ _.
              Triple-bind {R = λ _. On Cleared} _ _
                (Triple-write env _ (λ now t tr k. k) (λ _ _ _ _ k. k))
                (λ _. Triple-bind _ _ (Keeps-return_step up) (λ _.
                  Triple-bind {R = λ _. On Cleared} _ _
                    (Triple-write env _ (λ now t tr k. k) (λ _ _ _ _ k. k)) (λ _. Keeps-book d))))))
