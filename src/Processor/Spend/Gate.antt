-- ===== src/Processor/Spend/Gate.antt =====
-- An attempt spends nothing that its checks did not clear
-- (relayer/src/intent/intent.processor.ts, `store`).
use mathlib.Core.Path.{subst}
use bosphor.Base.{ℕ, String, Option, none, some, ◌≡◌, refl, All}
use bosphor.Base.Result.{Result, ok, err}
use bosphor.Staged.Types.{Bytes, StagedIntentRow}
use bosphor.Lifecycle.{IntentCommitment}
use bosphor.Processor.World.{M, Env, Config, World, Event, Failure, uploaded, BreakEvenDecision}
use bosphor.Processor.Triple.{
  Triple, On, Ends, Triple-bind, Triple-pure, Triple-throw, Triple-call, Triple-persist,
  Triple-read, Triple-emit, Triple-track_hop, Triple-given,
}
use bosphor.Processor.Store.{upload_bytes, upload_unless, upload_step, fetch}
use bosphor.Processor.Attempt.{unless_stopped, or_stop, spend, store}
use bosphor.Processor.Spend.{
  IsCommitted, CoversCommitted, GuardAgrees, Clears, Cleared, Keeps, Keeps-settle,
}
use bosphor.Processor.Spend.Checks.{
  Adds, Answers, Agreed, Answers-verify_blob_id, Answers-resolve_epochs, Answers-guard,
}

module _ {U : Type 0} (config : Config) (env : Env U) (row : StagedIntentRow) (sender : String)
    (commitment : Option IntentCommitment) where
  same_epochs :
      {key : String} {m n : ℕ}
      → ◌≡◌ {A = Event U} (uploaded row.intent_id m) (uploaded key n)
      → m ≡ n
  same_epochs e = cc e

  module _ {A : Type 0} {F : A → Type 0} (k : A → M U (Unit {0}))
      (next : (a : A) → F a → (Keeps config env row sender commitment) (k a)) where
    stopped :
        (o : Option A)
        → Triple
            ((Adds config env row sender commitment) F o)
            (unless_stopped k o)
            (λ _. On (Cleared config env row sender commitment))
            (λ _. On (Cleared config env row sender commitment))
    stopped none = Triple-pure tt (λ w h. h)
    stopped (some a) = Triple-given _ (λ f. next a f)

    Keeps-or_stop :
        (m : M U (Option A))
        → (Answers config env row sender commitment) F m
        → (Keeps config env row sender commitment) (or_stop m k)
    Keeps-or_stop m t = Triple-bind m _ t stopped

  module _ (c : (IsCommitted config env row sender commitment)) where
    module _ (epochs : ℕ) where
      Keeps-upload :
          (o : Option String)
          → row.walrus_object_id ≡ o
          → (CoversCommitted config env row sender commitment) epochs
          → (row.walrus_object_id ≡ none → (GuardAgrees config env row sender commitment) epochs)
          → (Keeps config env row sender commitment)
              (upload_unless config env row sender commitment o epochs)
      unfolding upload_unless upload_bytes fetch
      Keeps-upload (some object) p covers agreed = Triple-pure _ (λ w k. k)
      Keeps-upload none p covers agreed =
          Triple-bind {R = λ _. On (Cleared config env row sender commitment)} _ _
            (Triple-read _ _ (λ _ _ k. k) (λ _ _ k. k)) (λ b. with_bytes b)
        where
          with_bytes :
              (b : Option Bytes)
              → (Keeps config env row sender commitment)
                  (upload_bytes config env row sender commitment epochs b)
          with_bytes none = Triple-throw _ (λ w k. k)
          with_bytes (some bytes) =
              Triple-bind _ _ (Triple-call _ (λ _ _ _ k. k) (λ _ _ k. k)) (λ info.
                Triple-bind {R = λ _. On (Cleared config env row sender commitment)} _ _
                  (Triple-emit _ (λ t tr k. (
                    (
                      c,
                      λ key n e.
                          subst
                            (λ m.
                              (CoversCommitted config env row sender commitment) m
                              × (GuardAgrees config env row sender commitment) m)
                            (same_epochs e) (covers, agreed p),
                    ),
                    k,
                  )))
                  (λ _.
                    Triple-bind {R = λ _. On (Cleared config env row sender commitment)} _ _
                      (Triple-persist env row.intent_id _ (λ now t tr k. k)
                        (λ m w k. record { fact = ((c, λ key n e. cc), k.fact) }))
                      (λ _. Triple-pure _ (λ w k. k))))

      Keeps-spend :
          (d : Option (BreakEvenDecision U))
          → (CoversCommitted config env row sender commitment) epochs
          → (Agreed config env row sender commitment) epochs d
          → (Keeps config env row sender commitment)
              (spend config env row sender commitment epochs d)
      unfolding spend upload_step
      Keeps-spend d covers agreed =
          Triple-bind {R = λ _. On (Cleared config env row sender commitment)} _ _
            (Triple-emit _ (λ t tr k. ((c, λ key n e. cc), k)))
            (λ _. Triple-bind _ _ (Triple-track_hop env _ _ _) (λ _.
              Triple-bind _ _ (Keeps-upload row.walrus_object_id refl covers agreed) (λ up.
                Triple-bind _ _ (Triple-track_hop env _ _ _)
                  (λ _. (Keeps-settle config env row sender commitment) c up d))))

  -- Whatever the services answer and however the attempt ends, everything that it does outside or
  -- books happens only for bytes whose blob id is the committed one, and every upload of it is for at
  -- least the committed epochs (if they are known) and, if the guard is on and installed and the
  -- escrow has terms, after the guard said for this very duration that it should go on. The trace
  -- before the attempt is taken to be so too.
  pub store-Cleared :
      (w : World U)
      → All (Clears config env row sender commitment) w.trace
      → Ends
          (λ _ v. All (Clears config env row sender commitment) v.trace)
          (λ _ v. All (Clears config env row sender commitment) v.trace)
          (store config env row sender commitment w)
  unfolding store
  store-Cleared w h = facts _ (attempt.at w (record { fact = h }))
    where
      attempt : (Keeps config env row sender commitment) (store config env row sender commitment)
      attempt =
          Keeps-or_stop _
            (λ _ c.
              Keeps-or_stop _
                (λ epochs covers.
                  Keeps-or_stop _ (λ d agreed. Keeps-spend c epochs d covers agreed) _
                    ((Answers-guard config env row sender commitment) c epochs))
                _ ((Answers-resolve_epochs config env row sender commitment) c))
            _ (Answers-verify_blob_id config env row sender commitment)

      facts :
          (x : Result Failure (Unit {0}) × World U)
          → Ends
              (λ _. On (Cleared config env row sender commitment))
              (λ _. On (Cleared config env row sender commitment))
              x
          → Ends
              (λ _ v. All (Clears config env row sender commitment) v.trace)
              (λ _ v. All (Clears config env row sender commitment) v.trace)
              x
      facts (ok a, v) k = k.fact
      facts (err e, v) k = k.fact
