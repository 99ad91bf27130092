-- ===== src/Walrus/TopUp/Serial.antt =====
-- A swap only when it is due, one run at a time, and what the swaps of several runs spend.
use bosphor.Base.{
  ℕ, String, true, ◌+◌, ◌*◌, ◌≤◌, ◌<◌, ◌≡◌, refl, ◌⊎◌, inl, inr, List, [], ◌∷◌, ◌++◌, ltb, leb,
  if◌then◌else◌, Bool-cases, ◌∙◌, arith,
}
use bosphor.Base.Result.{Result, ok, err}
use bosphor.Walrus.TopUp.{
  WalTopUpSettings, Answers, Effect, top_up, refill, publish_sui, run_checked, run, TopUpState,
  ensure_wal, settle,
}

-- The SUI that swaps spend.
abbrev pub swapped : List Effect → ℕ
swapped [] = 0
swapped (Effect.swap_sui_for_wal amount ∷ effects) = amount + swapped effects
swapped (Effect.set_wal_balance n ∷ effects) = swapped effects
swapped (Effect.set_sui_balance n ∷ effects) = swapped effects
swapped (Effect.record_success ∷ effects) = swapped effects
swapped (Effect.record_failure ∷ effects) = swapped effects
swapped (Effect.record_insufficient_sui ∷ effects) = swapped effects

module _ (s : WalTopUpSettings) where
  -- The balances that call for a swap: WAL below the floor, and SUI for the swap and the reserve.
  abbrev pub IsLow : Result String ℕ → Type 0
  IsLow (err thrown) = ⊥
  IsLow (ok wal) = wal < s.min_balance_mist

  abbrev pub HasReserve : Result String ℕ → Type 0
  HasReserve (err thrown) = ⊥
  HasReserve (ok sui) = s.top_up_sui_mist + s.sui_reserve_mist ≤ sui

  abbrev pub IsDue : Answers → Type 0
  IsDue a = (s.swap_supported ≡ true) × IsLow a.wal_balance × HasReserve a.sui_balance

  swapped-top_up : (swap : Result String ℕ) → swapped (top_up s swap) ≡ s.top_up_sui_mist
  swapped-top_up (ok new_balance) = omega arith
  swapped-top_up (err thrown) = omega arith

  swapped-publish_sui :
      (sui : Result String ℕ) (rest : List Effect) → swapped (publish_sui s sui rest) ≡ swapped rest
  swapped-publish_sui (ok n) rest = refl
  swapped-publish_sui (err thrown) rest = refl

  -- Either a swap is due and made, or it is not due and not made.
  abbrev pub SwapsIfDue : Type 0 → List Effect → Type 0
  SwapsIfDue due effects =
      (due × (swapped effects ≡ s.top_up_sui_mist)) ⊎ (¬ due × (swapped effects ≡ 0))

  refill-SwapsIfDue :
      (sui swap : Result String ℕ)
      → SwapsIfDue ((s.swap_supported ≡ true) × HasReserve sui) (refill s sui swap)
  unfolding refill
  refill-SwapsIfDue (err thrown) swap = elim (Bool-cases s.swap_supported) [
    | inl on ↦ rw (on) (inr ((λ d. d.1), refl))
    | inr off ↦ rw (off) (inr ((λ d. d.1), refl))
  ]
  refill-SwapsIfDue (ok sui) swap = elim (Bool-cases s.swap_supported) [
    | inr off ↦ rw (off) (inr ((λ d. cc d.0), refl))
    | inl on ↦ elim (Bool-cases (ltb sui (s.top_up_sui_mist + s.sui_reserve_mist))) [
      | inl short ↦ rw (on, short) (inr ((λ d. ground (arith, short, d.1)), refl))
      | inr enough ↦ rw (on, enough) (inl ((refl, ground (arith, enough)), swapped-top_up swap))
    ]
  ]

  run_checked-SwapsIfDue :
      (wal : Result String ℕ) (a : Answers)
      → a.wal_balance ≡ wal
      → SwapsIfDue
          ((s.swap_supported ≡ true) × IsLow wal × HasReserve a.sui_balance)
          (run_checked s wal a)
  unfolding run_checked
  run_checked-SwapsIfDue (err thrown) a e = inr ((λ d. let (on, low, enough) = d in low), refl)
  run_checked-SwapsIfDue (ok wal) a e = elim (Bool-cases (leb s.min_balance_mist wal)) [
    | inl funded ↦ rw (funded) (
        inr (
          (λ d. let (on, low, enough) = d in ground (arith, funded, low)),
          swapped-publish_sui a.sui_balance [],
        ))
    | inr low ↦ rw (low) (
        lowered (ground (arith, low)) (refill s a.sui_balance a.swap)
          (refill-SwapsIfDue a.sui_balance a.swap))
  ]
    where
      lowered :
          wal < s.min_balance_mist
          → (effects : List Effect)
          → SwapsIfDue ((s.swap_supported ≡ true) × HasReserve a.sui_balance) effects
          → SwapsIfDue
              ((s.swap_supported ≡ true) × (wal < s.min_balance_mist) × HasReserve a.sui_balance)
              (Effect.set_wal_balance wal ∷ publish_sui s a.sui_balance effects)
      lowered low effects (inl ((on, enough), e)) =
          inl ((on, low, enough), swapped-publish_sui a.sui_balance effects ∙ e)
      lowered low effects (inr (undue, e)) = inr (
        (λ d. let (on, lower, enough) = d in undue (on, enough)),
        swapped-publish_sui a.sui_balance effects ∙ e,
      )

-- A run of the top-up swaps the set amount, exactly if the network has the exchange, the WAL
-- balance was read and is below its floor, and the SUI balance was read and holds the amount and the
-- reserve; otherwise it swaps nothing.
pub run-SwapsIfDue : (s : WalTopUpSettings) (a : Answers) → SwapsIfDue s (IsDue s a) (run s a)
unfolding run
run-SwapsIfDue s a = run_checked-SwapsIfDue s a.wal_balance a refl

-- How calls, each with the answers that a run would get, and ends of runs follow each other, and what
-- the runs do that the calls start.
pub data TopUpSteps (s : WalTopUpSettings) (t : TopUpState)
    : TopUpState → List Effect → Type 0 where
  none_yet : TopUpSteps s t t []
  then_called :
      {u : TopUpState} {effects : List Effect} (a : Answers)
      → TopUpSteps s t u effects
      → TopUpSteps s t (ensure_wal u) (if u.in_flight then effects else run s a ++ effects)
  then_finished :
      {u : TopUpState} {effects : List Effect}
      → TopUpSteps s t u effects
      → u.in_flight ≡ true
      → TopUpSteps s t (settle u) effects

-- At most one run is under way: the runs started are those ended, and one more during a run.
abbrev pub IsSerial : TopUpState → Type 0
IsSerial t = t.started ≡ t.ended + (if t.in_flight then 1 else 0)

swapped-append : (xs ys : List Effect) → swapped (xs ++ ys) ≡ swapped xs + swapped ys
swapped-append [] ys = omega arith
swapped-append (Effect.swap_sui_for_wal amount ∷ xs) ys = omega (arith, swapped-append xs ys)
swapped-append (Effect.set_wal_balance n ∷ xs) ys = swapped-append xs ys
swapped-append (Effect.set_sui_balance n ∷ xs) ys = swapped-append xs ys
swapped-append (Effect.record_success ∷ xs) ys = swapped-append xs ys
swapped-append (Effect.record_failure ∷ xs) ys = swapped-append xs ys
swapped-append (Effect.record_insufficient_sui ∷ xs) ys = swapped-append xs ys

module _ (s : WalTopUpSettings) (t : TopUpState) where
  -- What the swaps of the runs since `t` spend.
  record IsPaid (u : TopUpState) (effects : List Effect) : Type 0 where
    serial : IsSerial u
    paid : swapped effects + s.top_up_sui_mist * t.started ≤ s.top_up_sui_mist * u.started

  run-bound : (a : Answers) → swapped (run s a) ≤ s.top_up_sui_mist
  run-bound a = elim (run-SwapsIfDue s a) [
    | inl (due, e) ↦ omega (arith, e)
    | inr (undue, e) ↦ omega (arith, e)
  ]

  called-IsPaid :
      (a : Answers) (u : TopUpState) (effects : List Effect)
      → IsPaid u effects
      → IsPaid (ensure_wal u) (if u.in_flight then effects else run s a ++ effects)
  unfolding ensure_wal
  called-IsPaid a u effects h = elim (Bool-cases u.in_flight) [
    | inl busy ↦ simp (busy) h
    | inr free ↦
        let idle : u.started ≡ u.ended = ground (arith, free, h.serial) in
        simp (free) (record {
          serial = omega (arith, idle);
          paid = omega (arith, h.paid, run-bound a, swapped-append (run s a) effects);
        })
  ]

  finished-IsPaid :
      (u : TopUpState) (effects : List Effect)
      → u.in_flight ≡ true
      → IsPaid u effects
      → IsPaid (settle u) effects
  unfolding settle
  finished-IsPaid u effects busy h = record {
    serial = ground (arith, busy, h.serial);
    paid = h.paid;
  }

  TopUpSteps-IsPaid :
      {u : TopUpState} {effects : List Effect}
      → IsSerial t
      → TopUpSteps s t u effects
      → IsPaid u effects
  TopUpSteps-IsPaid k TopUpSteps.none_yet = record { serial = k; paid = omega arith }
  TopUpSteps-IsPaid k (TopUpSteps.then_called a steps) =
      called-IsPaid a _ _ (TopUpSteps-IsPaid k steps)
  TopUpSteps-IsPaid k (TopUpSteps.then_finished steps busy) =
      finished-IsPaid _ _ busy (TopUpSteps-IsPaid k steps)

-- However calls, each with any answers for a run, and ends of runs follow each other, at most one run
-- is under way at a time, and the swaps together spend at most the set amount for each run started, a
-- call during a run starting none.
pub TopUpSteps-IsSerial :
    (s : WalTopUpSettings) {t u : TopUpState} {effects : List Effect}
    → TopUpSteps s t u effects
    → IsSerial t
    → IsSerial u × (swapped effects + s.top_up_sui_mist * t.started ≤ s.top_up_sui_mist * u.started)
TopUpSteps-IsSerial s {t = t} steps k =
    let paid = TopUpSteps-IsPaid s t k steps in (paid.serial, paid.paid)
