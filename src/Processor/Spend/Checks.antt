-- ===== src/Processor/Spend/Checks.antt =====
-- The checks before the spend: what each proves when it lets the attempt go on
-- (relayer/src/intent/intent.processor.ts, steps 1, 1a and 1b of `store`).
use mathlib.Core.Option.{some-injective}
use bosphor.Base.{
  sym, ap, ◌∙◌, ℕ, String, Option, none, some, ◌≤◌, ◌≡◌, refl, true, false, not, ◌&&◌, arith,
  is_some,
}
use bosphor.Base.Result.{Result, ok}
use bosphor.Staged.Types.{StagedIntentRow}
use bosphor.Lifecycle.{IntentCommitment}
use bosphor.Walrus.StoreEpochs.{
  StoreEpochsPolicy, StoreEpochsResolution, Number, Source, natural, resolved, rejected, resolve,
}
use bosphor.Processor.World.{M, Env, Config, World, BreakEvenDecision, BreakEvenCheck, EscrowInfo}
use bosphor.Processor.Triple.{
  Triple, On, Triple-bind, Triple-pure, Triple-call, Triple-if, Triple-write, Triple-emit,
  Triple-given,
}
use bosphor.Processor.Store.{
  is_committed, committed_epochs, as_number, verify_blob_id, take_resolution, resolve_epochs, judge,
  guard_with, guard,
}
use bosphor.Processor.Spend.{IsCommitted, CoversCommitted, question, GuardAgrees, Cleared}

-- A resolved duration covers the committed one, whatever Walrus answers.
resolve-le :
    (policy : StoreEpochsPolicy) (system : Result String Number) (c e : ℕ) (s : Source)
    → resolve policy system (some (natural c)) ≡ ok (resolved e s)
    → c ≤ e
unfolding resolve
resolve-le policy system c e s h = ground arith

same_of_some : {A : Type 0} {a b : A} (o : Option A) → o ≡ some a → o ≡ some b → a ≡ b
same_of_some {a = a} {b = b} o p q = some-injective a b (sym p ∙ q)

not_none_and_some :
    {A : Type 0} {a : A} (r : Result String (Option A)) → r ≡ ok none → r ≡ ok (some a) → ⊥
not_none_and_some r p q = cc (p, q)

same_of_ok_some :
    {A : Type 0} {a b : A} (r : Result String (Option A))
    → r ≡ ok (some a)
    → r ≡ ok (some b)
    → a ≡ b
same_of_ok_some r p q = cc (p, q)

module _ {U : Type 0} (config : Config) (env : Env U) (row : StagedIntentRow) (sender : String)
    (commitment : Option IntentCommitment) where
  -- A check that answers adds its fact; one that stops, or throws, leaves the trace cleared.
  abbrev pub Adds : {A : Type 0} → (A → Type 0) → Option A → World U → Type 0
  Adds F none w = On (Cleared config env row sender commitment) w
  Adds F (some a) w = On (Cleared config env row sender commitment) w × F a

  abbrev pub Answers : {A : Type 0} → (A → Type 0) → M U (Option A) → Type 0
  Answers F m =
      Triple (On (Cleared config env row sender commitment)) m (Adds F)
        (λ _. On (Cleared config env row sender commitment))

  pub Answers-verify_blob_id :
      Answers
        (λ _. (IsCommitted config env row sender commitment))
        (verify_blob_id config env row sender commitment)
  unfolding verify_blob_id
  Answers-verify_blob_id =
      Triple-if (is_committed config env row sender commitment) _ _
        (λ e. Triple-pure _ (λ w k. (k, e)))
        (λ _.
          Triple-bind {R = λ _. On (Cleared config env row sender commitment)} _ _
            (Triple-write env _ (λ now t tr k. k) (λ _ _ _ _ k. k))
            (λ _. Triple-pure none (λ w k. k)))

  -- The guard's answer matters only while nothing is uploaded.
  abbrev pub Agreed : ℕ → Option (BreakEvenDecision U) → Type 0
  Agreed epochs d =
      row.walrus_object_id ≡ none → (GuardAgrees config env row sender commitment) epochs

  module _ (c : (IsCommitted config env row sender commitment)) where
    Answers-take_resolution :
        (x : StoreEpochsResolution)
        → resolve config.epochs env.walrus_max_epochs
            (as_number (committed_epochs config env row sender commitment))
          ≡ ok x
        → Answers
            (CoversCommitted config env row sender commitment)
            (take_resolution config env row sender commitment x)
    unfolding take_resolution
    Answers-take_resolution (resolved epochs s) e = Triple-pure _ (λ w k. (
      k,
      λ n same. resolve-le config.epochs env.walrus_max_epochs n epochs s (ground (arith, same, e)),
    ))
    Answers-take_resolution (rejected reason) e =
        Triple-if (is_some row.walrus_object_id) _ _
          (λ _. Triple-pure _ (λ w k. (k, λ n same. ground arith)))
          (λ _.
            Triple-bind {R = λ _. On (Cleared config env row sender commitment)} _ _
              (Triple-write env _ (λ now t tr k. k) (λ _ _ _ _ k. k))
              (λ _.
                Triple-bind {R = λ _. On (Cleared config env row sender commitment)} _ _
                  (Triple-emit _ (λ t tr k. ((c, λ key epochs e. cc), k)))
                  (λ _. Triple-pure none (λ w k. k))))

    pub Answers-resolve_epochs :
        Answers
          (CoversCommitted config env row sender commitment)
          (resolve_epochs config env row sender commitment)
    unfolding resolve_epochs
    Answers-resolve_epochs =
        Triple-bind
          {R = λ x w.
            On (Cleared config env row sender commitment) w
            × (resolve config.epochs env.walrus_max_epochs
                  (as_number (committed_epochs config env row sender commitment))
                ≡ ok x)}
          _ _ (Triple-call _ (λ x w e k. (k, e)) (λ _ _ k. k))
          (λ x. Triple-given _ (λ e. Answers-take_resolution x e))

    module _ (epochs : ℕ) where
      Answers-judge :
          (check : BreakEvenCheck → Result String (BreakEvenDecision U))
          (reader : String → Option ℕ → Result String (Option EscrowInfo)) (o : Option EscrowInfo)
          → env.break_even ≡ some check
          → env.escrow_reader ≡ some reader
          → reader row.intent_id row.src_eid ≡ ok o
          → Answers (Agreed epochs) (judge config env row sender commitment check epochs o)
      unfolding judge
      Answers-judge check reader none p q r = Triple-pure _ (λ w k. (
        k,
        λ _ on check' reader' escrow p' q' r'.
            elim (not_none_and_some _
              (ap (λ f. f row.intent_id row.src_eid) (sym (same_of_some _ q q')) ∙ r) r') [ ],
      ))
      Answers-judge check reader (some escrow) p q r =
          Triple-bind
            {R = λ d w.
              On (Cleared config env row sender commitment) w
              × (check ((question config env row sender commitment) epochs escrow) ≡ ok d)}
            _ _ (Triple-call _ (λ d w e k. (k, e)) (λ _ _ k. k))
            (λ d. Triple-given _ (λ e.
              Triple-if d.proceed _ _
                (λ go. Triple-pure _ (λ w k. (
                  k,
                  λ _ on check' reader' escrow' p' q' r'.
                      (d, asked check' reader' escrow' p' q' r' ∙ e, go),
                )))
                (λ _.
                  Triple-bind {R = λ _. On (Cleared config env row sender commitment)} _ _
                    (Triple-write env _ (λ now t tr k. k) (λ _ _ _ _ k. k))
                    (λ _.
                      Triple-bind {R = λ _. On (Cleared config env row sender commitment)} _ _
                        (Triple-emit _ (λ t tr k. ((c, λ key epochs e. cc), k)))
                        (λ _. Triple-pure none (λ w k. k))))))
        where
          asked :
              (check' : BreakEvenCheck → Result String (BreakEvenDecision U))
              (reader' : String → Option ℕ → Result String (Option EscrowInfo))
              (escrow' : EscrowInfo)
              → env.break_even ≡ some check'
              → env.escrow_reader ≡ some reader'
              → reader' row.intent_id row.src_eid ≡ ok (some escrow')
              → check' ((question config env row sender commitment) epochs escrow')
                ≡ check ((question config env row sender commitment) epochs escrow)
          asked check' reader' escrow' p' q' r' =
              ap (λ f. f ((question config env row sender commitment) epochs escrow'))
                (same_of_some _ p' p)
              ∙ ap (λ x. check ((question config env row sender commitment) epochs x))
                  (same_of_ok_some _ r'
                    (ap (λ f. f row.intent_id row.src_eid) (same_of_some _ q' q) ∙ r))

      pub Answers-guard : Answers (Agreed epochs) (guard config env row sender commitment epochs)
      unfolding guard
      Answers-guard =
          Triple-if (config.break_even_enabled && not (is_some row.walrus_object_id)) _ _
            (λ _. installed env.break_even env.escrow_reader refl refl)
            (λ off. Triple-pure _ (λ w k. (k, λ fresh on. elim (contradiction off fresh on) [ ])))
        where
          contradiction :
              config.break_even_enabled && not (is_some row.walrus_object_id) ≡ false
              → row.walrus_object_id ≡ none
              → config.break_even_enabled ≡ true
              → ⊥
          contradiction off fresh on = ground arith

          installed :
              (c : Option (BreakEvenCheck → Result String (BreakEvenDecision U)))
              (r : Option (String → Option ℕ → Result String (Option EscrowInfo)))
              → env.break_even ≡ c
              → env.escrow_reader ≡ r
              → Answers (Agreed epochs) (guard_with config env row sender commitment c r epochs)
          installed none r p q =
              Triple-pure _ (λ w k. (k, λ _ _ check reader escrow p' _ _. cc (p, p')))
          installed (some c) none p q =
              Triple-pure _ (λ w k. (k, λ _ _ check reader escrow _ q' _. cc (q, q')))
          installed (some c) (some r) p q =
              Triple-bind
                {R = λ o w.
                  On (Cleared config env row sender commitment) w
                  × (r row.intent_id row.src_eid ≡ ok o)}
                _ _ (Triple-call _ (λ o w e k. (k, e)) (λ _ _ k. k))
                (λ o. Triple-given _ (λ e. Answers-judge c r o p q e))
