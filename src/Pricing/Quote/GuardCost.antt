-- ===== src/Pricing/Quote/GuardCost.antt =====
-- The cost that the break-even guard reckons, in terms of the prices and amounts of a quote.
use bosphor.Base.{◌≡◌, sym, ap, ◌∙◌, Option, none, some, arith}
use bosphor.Base.Result.{ok, next-ok, ok-injective}
use bosphor.Settlement.Dollars.{ℤ, Dollars}
use bosphor.Settlement.Guard.{
  PriceToken, BreakEvenInputs, BreakEvenDecision, origin_price, amount_to_usd, require_price,
  require_non_negative, weigh, evaluate_break_even,
}

module _ {W : Type 0} (usd : Dollars W) where
  abbrev cost_at : ℤ → ℤ → ℤ → W → W → W
  cost_at storage return_lz gas wal_price sui_price =
      usd.add
        (usd.add (amount_to_usd usd storage 9 wal_price) (amount_to_usd usd return_lz 9 sui_price))
        (amount_to_usd usd gas 9 sui_price)

  require_price-same :
      (token : PriceToken) (o : Option W) (p q : W)
      → o ≡ some p
      → require_price usd token o ≡ ok q
      → q ≡ p
  unfolding require_price
  require_price-same token none p q e h = cc
  require_price-same token (some r) p q e h = ground arith

  guard_cost :
      (i : BreakEvenInputs usd) (d : BreakEvenDecision usd) (wal_price sui_price : W)
      → i.prices PriceToken.wal ≡ some wal_price
      → i.prices PriceToken.sui ≡ some sui_price
      → evaluate_break_even usd i ≡ ok d
      → d.cost_usd
        ≡ cost_at i.wal_cost_frost i.return_lz_fee_mist i.sui_gas_mist wal_price sui_price
  unfolding evaluate_break_even weigh
  guard_cost i d wal_price sui_price w s e =
      let (wal_read, w', e1) =
        next-ok (require_price usd PriceToken.wal (i.prices PriceToken.wal)) _ d e in
      let (sui_read, s', e2) =
        next-ok (require_price usd PriceToken.sui (i.prices PriceToken.sui)) _ d e1 in
      let token = origin_price i.origin_token in
      let (price, _, e3) = next-ok (require_price usd token (i.prices token)) _ d e2 in
      let (_, _, e4) = next-ok (require_non_negative usd "escrowNative" i.escrow_native) _ d e3 in
      let (_, _, e5) = next-ok (require_non_negative usd "walCostFrost" i.wal_cost_frost) _ d e4 in
      let (_, _, e6) =
        next-ok (require_non_negative usd "returnLzFeeMist" i.return_lz_fee_mist) _ d e5 in
      let (_, _, e7) = next-ok (require_non_negative usd "suiGasMist" i.sui_gas_mist) _ d e6 in
      let same : weigh usd i wal_read sui_read price ≡ d =
        ok-injective (weigh usd i wal_read sui_read price) d e7 in
      let wal_same =
        require_price-same PriceToken.wal (i.prices PriceToken.wal) wal_price wal_read w w' in
      let sui_same =
        require_price-same PriceToken.sui (i.prices PriceToken.sui) sui_price sui_read s s' in
      sym (ap (λ (x : BreakEvenDecision usd). x.cost_usd) same)
      ∙ ap (λ p. (weigh usd i p sui_read price).cost_usd) wal_same
      ∙ ap (λ p. (weigh usd i wal_price p price).cost_usd) sui_same

  -- At the same prices and the same amounts.
  pub guard_cost-same :
      (i : BreakEvenInputs usd) (d : BreakEvenDecision usd) (prices : PriceToken → Option W)
      (wal_price sui_price : W) (storage return_lz gas : ℤ)
      → i.prices ≡ prices
      → i.wal_cost_frost ≡ storage
      → i.return_lz_fee_mist ≡ return_lz
      → i.sui_gas_mist ≡ gas
      → prices PriceToken.wal ≡ some wal_price
      → prices PriceToken.sui ≡ some sui_price
      → evaluate_break_even usd i ≡ ok d
      → d.cost_usd ≡ cost_at storage return_lz gas wal_price sui_price
  guard_cost-same i d prices wal_price sui_price storage return_lz gas p c1 c2 c3 w s e =
      guard_cost i d wal_price sui_price (ap (λ f. f PriceToken.wal) p ∙ w)
        (ap (λ f. f PriceToken.sui) p ∙ s) e
      ∙ ap (λ c. cost_at c i.return_lz_fee_mist i.sui_gas_mist wal_price sui_price) c1
      ∙ ap (λ c. cost_at storage c i.sui_gas_mist wal_price sui_price) c2
      ∙ ap (λ c. cost_at storage return_lz c wal_price sui_price) c3
