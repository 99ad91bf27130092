-- ===== src/Pricing/Quote.antt =====
-- relayer/src/pricing/quote-engine.ts, and usdToNative of pricing-math.ts, over abstract
-- doubles.
pub mod GuardCost
pub mod Covers
use bosphor.Base.{
  ℕ, String, ◌+◌, ◌-◌, ◌*◌, ◌/◌, ◌^◌, Bool, true, false, not, ◌||◌, Option, none, some,
  if◌then◌else◌, ltb,
}
use bosphor.Base.Result.{Result, ok, err, ◌>>=◌}
use bosphor.Processor.World.{OriginToken}
use bosphor.Settlement.Dollars.{ℤ, is_negative, Dollars}
use bosphor.Settlement.Guard.{
  PriceToken, origin_price, frost_decimals, mist_decimals, native_decimals, amount_to_usd,
}

-- What a quote throws. `outside` is a failure of the oracle, the cost estimate or `BigInt`.
pub data QuoteError : Type 0 where
  negative : String → QuoteError
  missing_price : PriceToken → QuoteError
  bad_epochs : ℕ → QuoteError
  outside : String → QuoteError

-- `Math.max`, and `BigInt(Math.ceil(x))`, which throws for what is not finite.
pub record Rounding (W : Type 0) : Type 0 where
  pub larger : W → W → W
  pub ceil_bigint : W → Result QuoteError ℤ

-- Arithmetic on bigints: the sum, and the product and the truncated quotient by a natural.
abbrev minus : ℕ → ℕ → ℤ
minus a b = if ltb a b then ℤ.negsuc (b - a - 1) else ℤ.pos (a - b)

infixl 65 ◌+ℤ◌
unfoldable pub ◌+ℤ◌ : ℤ → ℤ → ℤ
ℤ.pos a +ℤ ℤ.pos b = ℤ.pos (a + b)
ℤ.pos a +ℤ ℤ.negsuc b = minus a (b + 1)
ℤ.negsuc a +ℤ ℤ.pos b = minus b (a + 1)
ℤ.negsuc a +ℤ ℤ.negsuc b = ℤ.negsuc (a + b + 1)

unfoldable pub times : ℤ → ℕ → ℤ
times (ℤ.pos a) n = ℤ.pos (a * n)
times (ℤ.negsuc a) n = minus 0 ((a + 1) * n)

unfoldable pub quotient : ℤ → ℕ → ℤ
quotient (ℤ.pos a) n = ℤ.pos (a / n)
quotient (ℤ.negsuc a) n = minus 0 ((a + 1) / n)

module _ {W : Type 0} (usd : Dollars W) where
  pub record QuoteBuffers : Type 0 where
    pub return_leg : W
    pub sui_gas : W
    pub wal : W
    pub cross_rate : W

  pub record QuoteConfig : Type 0 where
    pub buffers : QuoteBuffers
    pub service_margin_ratio : W
    pub min_charge_usd : W

  pub record QuoteCostInputs : Type 0 where
    pub origin_token : OriginToken
    pub wal_cost_frost : ℤ
    pub return_lz_fee_mist : ℤ
    pub sui_gas_mist : ℤ
    pub forward_lz_fee_native : ℤ
    pub origin_gas_native : ℤ

  pub record QuoteBreakdown : Type 0 where
    pub wal_cost_usd : W
    pub return_lz_usd : W
    pub sui_gas_usd : W
    pub forward_lz_usd : W
    pub origin_gas_usd : W
    pub buffered_escrow_usd : W
    pub service_margin_usd : W
    pub escrow_usd : W
    pub forward_usd : W
    pub total_usd : W
    pub floor_applied : Bool

  pub record Quote : Type 0 where
    pub origin_token : OriginToken
    pub escrow_native : ℤ
    pub forward_native : ℤ
    pub total_native : ℤ
    pub breakdown : QuoteBreakdown
    pub prices : PriceToken → Option W

  abbrev subunit : ℕ
  subunit = 9

  unfoldable pub usd_to_native : Rounding W → W → W → ℕ → Result QuoteError ℤ
  unfolding times quotient
  usd_to_native rounding amount price_usd decimals = do
    let whole_units = usd.div amount price_usd
    sub ← rounding.ceil_bigint (usd.mul whole_units (usd.of_bigint (ℤ.pos (10 ^ subunit))))
    ok (
        if not (ltb decimals subunit)
        then times sub (10 ^ (decimals - subunit))
        else quotient sub (10 ^ (subunit - decimals)))

  unfoldable pub assert_non_negative : String → ℤ → Result QuoteError Unit
  assert_non_negative name v = if is_negative v then err (negative name) else ok tt

  unfoldable pub price_of : (PriceToken → Option W) → PriceToken → Result QuoteError W
  price_of prices token = elim (prices token) [
    | none ↦ err (missing_price token)
    | some p ↦
        if not (usd.is_finite p) || usd.le p usd.nought then err (missing_price token) else ok p
  ]

  -- The dollars of a quote, once the inputs are checked.
  unfoldable pub break_down :
      Rounding W → QuoteConfig → QuoteCostInputs → W → W → W → QuoteBreakdown
  unfolding amount_to_usd
  break_down rounding config inputs origin_price_usd wal_price sui_price =
      let wal_cost = amount_to_usd usd inputs.wal_cost_frost frost_decimals wal_price in
      let return_lz = amount_to_usd usd inputs.return_lz_fee_mist mist_decimals sui_price in
      let sui_gas = amount_to_usd usd inputs.sui_gas_mist mist_decimals sui_price in
      let decimals = native_decimals inputs.origin_token in
      let forward_lz = amount_to_usd usd inputs.forward_lz_fee_native decimals origin_price_usd in
      let origin_gas = amount_to_usd usd inputs.origin_gas_native decimals origin_price_usd in
      let buffers = config.buffers in
      let above = λ (ratio : W). usd.add usd.one ratio in
      let wal_buffered = usd.mul wal_cost (above buffers.wal) in
      let return_buffered =
        usd.mul (usd.mul return_lz (above buffers.return_leg)) (above buffers.cross_rate) in
      let gas_buffered =
        usd.mul (usd.mul sui_gas (above buffers.sui_gas)) (above buffers.cross_rate) in
      let buffered_raw = usd.add (usd.add wal_buffered return_buffered) gas_buffered in
      let buffered_escrow = rounding.larger buffered_raw config.min_charge_usd in
      let service_margin = usd.mul buffered_escrow config.service_margin_ratio in
      let escrow = usd.add buffered_escrow service_margin in
      let forward = usd.add forward_lz origin_gas in
      record {
        wal_cost_usd = wal_cost;
        return_lz_usd = return_lz;
        sui_gas_usd = sui_gas;
        forward_lz_usd = forward_lz;
        origin_gas_usd = origin_gas;
        buffered_escrow_usd = buffered_escrow;
        service_margin_usd = service_margin;
        escrow_usd = escrow;
        forward_usd = forward;
        total_usd = usd.add escrow forward;
        floor_applied = usd.lt buffered_raw config.min_charge_usd;
      }

  unfoldable pub quote :
      Rounding W → QuoteConfig → QuoteCostInputs → (PriceToken → Option W) → Result QuoteError Quote
  unfolding assert_non_negative price_of break_down usd_to_native ◌+ℤ◌
  quote rounding config inputs prices = do
    _ ← assert_non_negative "walCostFrost" inputs.wal_cost_frost
    _ ← assert_non_negative "returnLzFeeMist" inputs.return_lz_fee_mist
    _ ← assert_non_negative "suiGasMist" inputs.sui_gas_mist
    _ ← assert_non_negative "forwardLzFeeNative" inputs.forward_lz_fee_native
    _ ← assert_non_negative "originGasNative" inputs.origin_gas_native
    price ← price_of prices (origin_price inputs.origin_token)
    wal_price ← price_of prices PriceToken.wal
    sui_price ← price_of prices PriceToken.sui
    let breakdown = break_down rounding config inputs price wal_price sui_price
    escrow ← usd_to_native rounding breakdown.escrow_usd price (native_decimals inputs.origin_token)
    let forward = inputs.forward_lz_fee_native +ℤ inputs.origin_gas_native
    ok (record {
      origin_token = inputs.origin_token;
      escrow_native = escrow;
      forward_native = forward;
      total_native = escrow +ℤ forward;
      breakdown = breakdown;
      prices = prices;
    })
