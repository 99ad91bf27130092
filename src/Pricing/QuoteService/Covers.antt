-- ===== src/Pricing/QuoteService/Covers.antt =====
-- The escrow that the service quotes for a commitment covers the cost of storing what is committed.
use bosphor.Base.{ℕ, String, ◌≤◌, true, ◌≡◌, sym, ap, ◌∙◌, Option, some, max, arith}
use bosphor.Base.Result.{Result, ok, next-ok, ok-injective}
use bosphor.Walrus.StoreEpochs.{
  Number, natural, StoreEpochsPolicy, Source, resolved, walrus_min_epochs, resolve,
}
use bosphor.Settlement.Dollars.{Dollars, IsRounded}
use bosphor.Settlement.Guard.{BreakEvenInputs, BreakEvenDecision, evaluate_break_even}
use bosphor.Pricing.Quote.{Rounding, Quote}
use bosphor.Pricing.Quote.Covers.{IsMonotone, IsSensible, quote-Covers}
use bosphor.Pricing.QuoteService.{QuoteEnv, QuoteRequest, priced_epochs, service_quote}

-- A commitment that the relayer stores is stored for the committed epochs, or for the least there are.
resolved-max :
    (policy : StoreEpochsPolicy) (system : Result String Number) (c e : ℕ) (s : Source)
    → resolve policy system (some (natural c)) ≡ ok (resolved e s)
    → e ≡ max c walrus_min_epochs
unfolding resolve
resolved-max policy system c e s h = ground arith

module _ {W : Type 0} (usd : Dollars W) where
  priced_epochs-max :
      (env : QuoteEnv usd) (c : ℕ) (o : Option ℕ)
      → priced_epochs usd env (some c) ≡ ok o
      → o ≡ some (max c walrus_min_epochs)
  unfolding priced_epochs
  priced_epochs-max env c o h = ground arith

  priced_epochs-le :
      (env : QuoteEnv usd) (c : ℕ) (o : Option ℕ)
      → priced_epochs usd env (some c) ≡ ok o
      → c ≤ env.max_store_epochs
  unfolding priced_epochs
  priced_epochs-le env c o h = ground arith

-- If rounding keeps the order and the settings charge for what they say: a request for some epochs
-- is quoted only if they are within the cap, and then the escrow, in dollars, is worth at least the
-- minimum charge, and at least the cost that the guard reckons when the relayer stores such a
-- commitment, for as long as it then resolves to, at the prices, return fee and gas of the quote and
-- at the storage cost that is estimated for that long, whatever escrow and margin the guard is given.
pub service_quote-Covers :
    {W : Type 0} (usd : Dollars W) (rounding : Rounding W) (env : QuoteEnv usd)
    (req : QuoteRequest usd) (q : Quote usd) (c e : ℕ) (policy : StoreEpochsPolicy)
    (system : Result String Number) (s : Source) (guarded : BreakEvenInputs usd)
    (d : BreakEvenDecision usd)
    → IsRounded usd
    → IsMonotone usd rounding
    → IsSensible usd rounding env.config
    → req.epochs ≡ some c
    → service_quote usd rounding env req ≡ ok q
    → resolve policy system (some (natural c)) ≡ ok (resolved e s)
    → env.get_prices ≡ ok guarded.prices
    → env.estimate_wal_cost_frost req.size_bytes (some e) ≡ ok guarded.wal_cost_frost
    → env.return_lz_fee_mist ≡ ok guarded.return_lz_fee_mist
    → env.sui_gas_mist ≡ ok guarded.sui_gas_mist
    → evaluate_break_even usd guarded ≡ ok d
    → (c ≤ env.max_store_epochs)
      × (usd.le env.config.min_charge_usd q.breakdown.escrow_usd ≡ true)
      × (usd.le d.cost_usd q.breakdown.escrow_usd ≡ true)
unfolding service_quote
service_quote-Covers usd rounding env req q c e policy system s guarded d rounded monotone sensible
      asked quoted stored prices_now cost_now return_now gas_now reckoned =
    let (epochs, priced, q1) = next-ok (priced_epochs usd env req.epochs) _ q quoted in
    let (prices, p, q2) = next-ok env.get_prices _ q q1 in
    let (storage, w, q3) = next-ok (env.estimate_wal_cost_frost req.size_bytes epochs) _ q q2 in
    let (return_lz, r, q4) = next-ok env.return_lz_fee_mist _ q q3 in
    let (gas, g, q5) = next-ok env.sui_gas_mist _ q q4 in
    let priced_c : priced_epochs usd env (some c) ≡ ok epochs =
      ap (priced_epochs usd env) (sym asked) ∙ priced in
    let same_epochs : some e ≡ epochs =
      ap (λ n. some n) (resolved-max policy system c e s stored)
      ∙ sym (priced_epochs-max usd env c epochs priced_c) in
    let same_storage : guarded.wal_cost_frost ≡ storage =
      ok-injective _ _
        (sym cost_now ∙ ap (env.estimate_wal_cost_frost req.size_bytes) same_epochs ∙ w) in
    let (floored, covered) =
      quote-Covers usd rounding env.config _ prices q guarded d rounded monotone sensible q5
        (ok-injective _ _ (sym prices_now ∙ p)) same_storage (ok-injective _ _ (sym return_now ∙ r))
        (ok-injective _ _ (sym gas_now ∙ g)) reckoned in
    (priced_epochs-le usd env c epochs priced_c, floored, covered)
