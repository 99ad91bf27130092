-- ===== src/Processor/Outcome/Late.antt =====
-- From the record on Sui to the end of an attempt of relayer/src/intent/intent.processor.ts.
use bosphor.Base.{
  String, Option, none, some, ◌≡◌, refl, ap, ◌∙◌, true, false, not, ◌&&◌, arith, is_some,
}
use bosphor.Staged.Types.{StagedIntentRow, UploadResult}
use bosphor.Staged.Table.{RowIs}
use bosphor.Lifecycle.{IntentCommitment}
use bosphor.Ledger.{already_recorded}
use bosphor.Ledger.Laws.{record_completed_store-table}
use bosphor.Processor.World.{Env, Config, World, Event, pure, throw, BreakEvenDecision}
use bosphor.Processor.Triple.{
  Triple, Triple-bind, Triple-catch, Triple-pure, Triple-throw, Triple-call, Triple-if,
  Triple-write, Triple-emit, Triple-track_hop,
}
use bosphor.Processor.Frame.{is_return, KeepsQueue-return_leg}
use bosphor.Processor.Store.{execute, record_step, record_unless, message, says_already_executed}
use bosphor.Processor.Return.{return_step}
use bosphor.Processor.Attempt.{completed, record_completed, ledger_step, book, finish, settle}
use bosphor.Processor.Outcome.Rows.{
  is_post, IsSafe, IsEnded, Is, IsStored, IsRecorded, IsFreed, IsProved, SafeIfPost, IsRecorded-row,
  IsFreed-row, returned_row, done_row, ledgered_row, quiet_row, any_row, Tally, IsQuiet, not_post,
}

return_is_no_upload : {U : Type 0} (id : String) (e : Event U) → is_return e ≡ true → IsQuiet id e
return_is_no_upload id e q = (ground arith, ground arith)

module _ {U : Type 0} (config : Config) (env : Env U) (row : StagedIntentRow) (sender : String)
    (commitment : Option IntentCommitment) where
  module _ (up : UploadResult) where
    pub Triple-return_step :
        Triple
          (Is row (IsFreed row))
          (return_step config env row up)
          (λ _. Is row (IsProved row))
          (SafeIfPost row)
    unfolding return_step
    Triple-return_step =
        Triple-if row.returned _ _ (λ e. Triple-pure tt (λ w k. proved e w k))
          (λ _.
            Triple-bind _ _
              (Triple-catch _ _
                (KeepsQueue-return_leg _
                  (λ e q t tr k.
                    quiet_row row (IsFreed row) e t tr (return_is_no_upload row.intent_id e q) k)
                  config env row up)
                (λ e. Triple-throw _ (λ w k. record {
                  counted = any_row row (IsFreed row) w k;
                  safe = λ _. freed_safe w k;
                })))
              (λ _.
                Triple-write env _ (λ now t tr k. returned_row row tr now t k)
                  (λ _ m _ w k. not_post row (IsFreed row) m w k)))
      where
        proved :
            row.returned ≡ true → (w : World U) → Is row (IsFreed row) w → Is row (IsProved row) w
        proved e w k = record {
          fact = let (r, found, ((safe, same), n)) = k.fact in (r, found, ((safe, same ∙ e), n));
        }

        freed_safe : (w : World U) → Is row (IsFreed row) w → Is row IsSafe w
        freed_safe w k = record {
          fact = let (r, found, ((safe, _), n)) = k.fact in (r, found, (safe, n));
        }

    pub Triple-finish :
        (d : Option (BreakEvenDecision U))
        → Triple
            (Is row (IsRecorded row))
            (finish config env row sender commitment up d)
            (λ _. Is row IsEnded)
            (SafeIfPost row)
    unfolding finish
    Triple-finish d =
        Triple-bind _ _
          (Triple-write env _ (λ now t tr k. IsFreed-row row tr now t k)
            (λ _ m _ w k. not_post row (IsRecorded row) m w k))
          (λ _. Triple-bind _ _ Triple-return_step (λ _.
            Triple-bind _ _
              (Triple-write env _ (λ now t tr k. done_row row tr now t k)
                (λ _ m _ w k. not_post row (IsProved row) m w k))
              (λ _. booked d)))
      where
        booked :
            (d : Option (BreakEvenDecision U))
            → Triple
                (Is row IsEnded)
                (book config env row sender commitment d)
                (λ _. Is row IsEnded)
                (SafeIfPost row)
        booked none = Triple-pure tt (λ w k. k)
        booked (some d) = Triple-emit _ (λ t tr k. quiet_row row IsEnded _ t tr (refl, refl) k)

    pub Triple-ledger_step :
        (digest : String)
        → Triple
            (Is row (IsRecorded row))
            (ledger_step config env row sender commitment up digest)
            (λ _. Is row (IsRecorded row))
            (SafeIfPost row)
    unfolding ledger_step record_completed
    Triple-ledger_step digest =
        Triple-if (not row.ledgered && env.ledger_installed)
          (record_completed config env row sender commitment up digest) (pure tt)
          (λ _. record {
            at = λ w k. record {
              fact =
                  record_completed_store-table config.network (env.time w.reads) env.ledger_up
                    env.ledger_flags (completed config env row sender commitment up digest)
                    (record { ledger = w.ledger; table = w.table })
                    (λ t.
                      RowIs row.intent_id (λ r. IsRecorded row r × Tally row.intent_id w.trace r) t)
                    k.fact (ledgered_row row w.trace w.table k.fact);
            };
          })
          (λ _. Triple-pure tt (λ w k. k))

    pub Triple-execute :
        Triple
          (Is row (IsStored row))
          (execute config env row sender commitment up)
          (λ _. Is row (IsStored row))
          (SafeIfPost row)
    unfolding execute
    Triple-execute =
        Triple-catch {F = λ e w. Is row (IsStored row) w × (is_post e ≡ false)} _ _
          (Triple-bind _ _ (Triple-call _ (λ _ _ _ k. k) (λ _ _ k. (k, refl))) (λ digest.
            Triple-bind _ _
              (Triple-emit _ (λ t tr k. quiet_row row (IsStored row) _ t tr (refl, refl) k))
              (λ _.
                Triple-bind _ _ (Triple-call _ (λ _ _ _ k. k) (λ _ _ k. (k, refl)))
                  (λ _. Triple-pure _ (λ w k. k)))))
          (λ e.
            Triple-if (says_already_executed (message e)) (pure already_recorded) (throw e)
              (λ _. Triple-pure _ (λ w k. k.0))
              (λ _. Triple-throw e (λ w k. record {
                counted = any_row row (IsStored row) w k.0;
                safe = λ p. cc (k.1);
              })))

    pub Triple-record_step :
        Triple
          (Is row (IsStored row))
          (record_step config env row sender commitment up)
          (λ _. Is row (IsRecorded row))
          (SafeIfPost row)
    unfolding record_step record_unless
    Triple-record_step = unless row.store_digest refl
      where
        unless :
            (o : Option String)
            → row.store_digest ≡ o
            → Triple
                (Is row (IsStored row))
                (record_unless config env row sender commitment o up)
                (λ _. Is row (IsRecorded row))
                (SafeIfPost row)
        unless none e = Triple-bind _ _ Triple-execute (λ digest.
            Triple-bind _ _
              (Triple-write env _ (λ now t tr k. IsRecorded-row row tr now digest t k)
                (λ _ m _ w k. not_post row (IsStored row) m w k))
              (λ _. Triple-pure digest (λ w k. k)))
        unless (some digest) e = Triple-pure digest (λ w k. record {
          fact =
              let (r, found, ((a, b, c), n)) = k.fact in (r, found, ((a, b ∙ ap is_some e, c), n));
        })

    pub Triple-settle :
        (d : Option (BreakEvenDecision U))
        → Triple
            (Is row (IsStored row))
            (settle config env row sender commitment up d)
            (λ _. Is row IsEnded)
            (SafeIfPost row)
    unfolding settle
    Triple-settle d = Triple-bind _ _ Triple-record_step (λ digest.
        Triple-bind _ _ (Triple-track_hop env _ _ _)
          (λ _. Triple-bind _ _ (Triple-ledger_step digest) (λ _. Triple-finish d)))
