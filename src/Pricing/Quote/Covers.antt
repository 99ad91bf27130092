-- ===== src/Pricing/Quote/Covers.antt =====
-- The escrow that is quoted covers what the guard will reckon as cost, at the same prices and costs.
use mathlib.Core.Path.{subst}
use bosphor.Base.{
  ℕ, String, true, false, ◌≡◌, refl, sym, ap, ◌∙◌, Option, some, inl, inr, Bool-cases, Option-cases,
}
use bosphor.Base.Result.{Result, ok, err, next-ok, ok-injective}
use bosphor.Settlement.Dollars.{ℤ, Dollars, IsRounded}
use bosphor.Settlement.Guard.{
  PriceToken, BreakEvenInputs, BreakEvenDecision, origin_price, evaluate_break_even,
}
use bosphor.Settlement.Covers.{amount_to_usd-nonneg}
use bosphor.Pricing.Quote.{
  QuoteError, Rounding, QuoteConfig, QuoteCostInputs, QuoteBreakdown, Quote, assert_non_negative,
  price_of, break_down, usd_to_native, quote,
}
use bosphor.Pricing.Quote.GuardCost.{guard_cost-same}

module _ {W : Type 0} (usd : Dollars W) (rounding : Rounding W) where
  -- Sums and the larger of two keep the order, for what is not negative.
  pub record IsMonotone : Type 0 where
    pub add_mono :
        (a b c d : W)
        → usd.le usd.nought a ≡ true
        → usd.le usd.nought c ≡ true
        → usd.le a b ≡ true
        → usd.le c d ≡ true
        → usd.le (usd.add a c) (usd.add b d) ≡ true
    pub add_grows :
        (a b : W)
        → usd.le usd.nought a ≡ true
        → usd.le usd.nought b ≡ true
        → usd.le a (usd.add a b) ≡ true
    pub larger_bounds :
        (a b : W)
        → usd.le usd.nought a ≡ true
        → usd.le usd.nought b ≡ true
        → (usd.le a (rounding.larger a b) ≡ true) × (usd.le b (rounding.larger a b) ≡ true)

  -- A ratio that is finite and not negative.
  abbrev pub IsRatio : W → Type 0
  IsRatio r = (usd.le usd.nought r ≡ true) × (usd.is_finite r ≡ true)

  -- Finite and positive.
  abbrev pub IsPositive : W → Type 0
  IsPositive p = (usd.is_finite p ≡ true) × (usd.le p usd.nought ≡ false)

  -- Settings that charge for what they say: none is negative or without bound, and the margin is
  -- positive.
  pub record IsSensible (config : QuoteConfig usd) : Type 0 where
    pub wal : IsRatio config.buffers.wal
    pub return_leg : IsRatio config.buffers.return_leg
    pub sui_gas : IsRatio config.buffers.sui_gas
    pub cross_rate : IsRatio config.buffers.cross_rate
    pub margin : IsPositive config.service_margin_ratio
    pub min_charge : usd.le usd.nought config.min_charge_usd ≡ true

  -- The cost, summed up as the guard does.
  abbrev pub cost_of : QuoteBreakdown usd → W
  cost_of b = usd.add (usd.add b.wal_cost_usd b.return_lz_usd) b.sui_gas_usd

  module _ (rounded : IsRounded usd) (monotone : IsMonotone) where
    abbrev above : W → W
    above ratio = usd.add usd.one ratio

    buffered :
        (c r : W)
        → usd.le usd.nought c ≡ true
        → IsRatio r
        → (usd.le c (usd.mul c (above r)) ≡ true) × (usd.le usd.nought (usd.mul c (above r)) ≡ true)
    buffered c r h (m, f) =
        let grown = rounded.mul_grows c r h m f in (grown, rounded.le_trans _ _ _ h grown)

    buffered_twice :
        (c r q : W)
        → usd.le usd.nought c ≡ true
        → IsRatio r
        → IsRatio q
        → (usd.le c (usd.mul (usd.mul c (above r)) (above q)) ≡ true)
          × (usd.le usd.nought (usd.mul (usd.mul c (above r)) (above q)) ≡ true)
    buffered_twice c r q h m n =
        let (first, nonneg) = buffered c r h m in
        let (second, nonneg') = buffered (usd.mul c (above r)) q nonneg n in
        (rounded.le_trans _ _ _ first second, nonneg')

    break_down-Covers :
        (config : QuoteConfig usd) (inputs : QuoteCostInputs usd) (price wal_price sui_price : W)
        → IsSensible config
        → IsPositive wal_price
        → IsPositive sui_price
        → ((n : ℕ) × (inputs.wal_cost_frost ≡ ℤ.pos n))
        → ((n : ℕ) × (inputs.return_lz_fee_mist ≡ ℤ.pos n))
        → ((n : ℕ) × (inputs.sui_gas_mist ≡ ℤ.pos n))
        → let b = break_down usd rounding config inputs price wal_price sui_price in
          (usd.le (cost_of b) b.escrow_usd ≡ true)
          × (usd.le config.min_charge_usd b.escrow_usd ≡ true)
    unfolding break_down
    break_down-Covers config inputs price wal_price sui_price s w p c1 c2 c3 =
        let n1 = amount_to_usd-nonneg usd rounded inputs.wal_cost_frost wal_price c1 w in
        let n2 = amount_to_usd-nonneg usd rounded inputs.return_lz_fee_mist sui_price c2 p in
        let n3 = amount_to_usd-nonneg usd rounded inputs.sui_gas_mist sui_price c3 p in
        let (b1, m1) = buffered _ config.buffers.wal n1 s.wal in
        let (b2, m2) =
          buffered_twice _ config.buffers.return_leg config.buffers.cross_rate n2 s.return_leg
            s.cross_rate in
        let (b3, m3) =
          buffered_twice _ config.buffers.sui_gas config.buffers.cross_rate n3 s.sui_gas
            s.cross_rate in
        let raw =
          monotone.add_mono _ _ _ _ (rounded.add_nonneg _ _ n1 n2) n3
            (monotone.add_mono _ _ _ _ n1 n2 b1 b2) b3 in
        let raw_nonneg = rounded.add_nonneg _ _ (rounded.add_nonneg _ _ m1 m2) m3 in
        let (over_raw, over_min) =
          monotone.larger_bounds _ config.min_charge_usd raw_nonneg s.min_charge in
        let nonneg = rounded.le_trans _ _ _ raw_nonneg over_raw in
        let charged =
          monotone.add_grows _ _ nonneg
            (rounded.mul_nonneg _ config.service_margin_ratio nonneg s.margin.0 s.margin.1) in
        (
          rounded.le_trans _ _ _ raw (rounded.le_trans _ _ _ over_raw charged),
          rounded.le_trans _ _ _ over_min charged,
        )

    assert_non_negative-pos :
        (name : String) (v : ℤ) (u : Unit {0})
        → assert_non_negative usd name v ≡ ok u
        → (n : ℕ) × (v ≡ ℤ.pos n)
    unfolding assert_non_negative
    assert_non_negative-pos name (ℤ.pos n) u e = (n, refl)
    assert_non_negative-pos name (ℤ.negsuc n) u e = cc e

    -- A price that is taken is that of the set, and fit for use.
    price_of-some :
        (prices : PriceToken → Option W) (token : PriceToken) (p : W)
        → price_of usd prices token ≡ ok p
        → (prices token ≡ some p) × IsPositive p
    unfolding price_of
    price_of-some prices token p e = elim (Option-cases (prices token)) [
      | inl missing ↦ cc (rw (missing, price_of) at e)
      | inr (q, found) ↦ elim (Bool-cases (usd.is_finite q)) [
        | inr endless ↦ cc (rw (found, endless, price_of) at e)
        | inl finite ↦ elim (Bool-cases (usd.le q usd.nought)) [
          | inl low ↦ cc (rw (found, finite, low, price_of) at e)
          | inr positive ↦
              let same : q ≡ p = ok-injective q p (rw (found, finite, positive, price_of) at e) in
              (found ∙ ap some same, subst IsPositive same (finite, positive))
        ]
      ]
    ]

-- If rounding keeps the order and the settings charge for what they say: the escrow of every quote, in
-- dollars, is worth at least the minimum charge, and at least the cost that the guard reckons later
-- with the same prices, storage cost, return fee and gas, whatever escrow and margin it is given.
pub quote-Covers :
    {W : Type 0} (usd : Dollars W) (rounding : Rounding W) (config : QuoteConfig usd)
    (inputs : QuoteCostInputs usd) (prices : PriceToken → Option W) (q : Quote usd)
    (guarded : BreakEvenInputs usd) (d : BreakEvenDecision usd)
    → IsRounded usd
    → IsMonotone usd rounding
    → IsSensible usd rounding config
    → quote usd rounding config inputs prices ≡ ok q
    → guarded.prices ≡ prices
    → guarded.wal_cost_frost ≡ inputs.wal_cost_frost
    → guarded.return_lz_fee_mist ≡ inputs.return_lz_fee_mist
    → guarded.sui_gas_mist ≡ inputs.sui_gas_mist
    → evaluate_break_even usd guarded ≡ ok d
    → (usd.le config.min_charge_usd q.breakdown.escrow_usd ≡ true)
      × (usd.le d.cost_usd q.breakdown.escrow_usd ≡ true)
unfolding quote break_down
quote-Covers usd rounding config inputs prices q guarded d rounded monotone s e p c1 c2 c3 g =
    let (u1, n1, e1) =
      next-ok (assert_non_negative usd "walCostFrost" inputs.wal_cost_frost) _ q e in
    let (u2, n2, e2) =
      next-ok (assert_non_negative usd "returnLzFeeMist" inputs.return_lz_fee_mist) _ q e1 in
    let (u3, n3, e3) = next-ok (assert_non_negative usd "suiGasMist" inputs.sui_gas_mist) _ q e2 in
    let (_, _, e4) =
      next-ok (assert_non_negative usd "forwardLzFeeNative" inputs.forward_lz_fee_native) _ q e3 in
    let (_, _, e5) =
      next-ok (assert_non_negative usd "originGasNative" inputs.origin_gas_native) _ q e4 in
    let (price, _, e6) = next-ok (price_of usd prices (origin_price inputs.origin_token)) _ q e5 in
    let (wal, w, e7) = next-ok (price_of usd prices PriceToken.wal) _ q e6 in
    let (sui, v, e8) = next-ok (price_of usd prices PriceToken.sui) _ q e7 in
    let b = break_down usd rounding config inputs price wal sui in
    let (native, _, e9) = next-ok (usd_to_native usd rounding b.escrow_usd price _) _ q e8 in
    let value : Result QuoteError (Quote usd) → Quote usd =
      λ r. elim r [ err thrown ↦ q | ok x ↦ x ] in
    let same : b ≡ q.breakdown = ap (λ r. (value r).breakdown) e9 in
    let (wal_there, wal_fit) =
      price_of-some usd rounding rounded monotone prices PriceToken.wal wal w in
    let (sui_there, sui_fit) =
      price_of-some usd rounding rounded monotone prices PriceToken.sui sui v in
    let (covers, floored) =
      break_down-Covers usd rounding rounded monotone config inputs price wal sui s wal_fit sui_fit
        (assert_non_negative-pos usd rounding rounded monotone "walCostFrost" inputs.wal_cost_frost
          u1 n1)
        (assert_non_negative-pos usd rounding rounded monotone "returnLzFeeMist"
          inputs.return_lz_fee_mist u2 n2)
        (assert_non_negative-pos usd rounding rounded monotone "suiGasMist" inputs.sui_gas_mist u3
          n3) in
    let cost : d.cost_usd ≡ cost_of usd rounding b =
      guard_cost-same usd guarded d prices wal sui inputs.wal_cost_frost inputs.return_lz_fee_mist
        inputs.sui_gas_mist p c1 c2 c3 wal_there sui_there g in
    (
      subst (λ x. usd.le config.min_charge_usd x.escrow_usd ≡ true) same floored,
      subst (λ c. usd.le c q.breakdown.escrow_usd ≡ true) (sym cost)
          (subst (λ x. usd.le (cost_of usd rounding b) x.escrow_usd ≡ true) same covers),
    )
