-- ===== src/Settlement/Guard.antt =====
-- relayer/src/pricing/break-even-guard.ts with pricing-math.ts, and `check` of
-- relayer/src/settlement/break-even-guard.service.ts. The text of the reason is left out.
use bosphor.Base.{ℕ, String, Bool, not, ◌||◌, ◌^◌, Option, none, some, if◌then◌else◌}
use bosphor.Base.Result.{Result, ok, err, ◌>>=◌}
use bosphor.Processor.World.{OriginToken, BreakEvenCheck}
use bosphor.Settlement.Dollars.{ℤ, is_negative, Dollars}

pub data PriceToken : Type 0 where
  wal sui eth sol : PriceToken

abbrev pub origin_price : OriginToken → PriceToken
origin_price OriginToken.eth = PriceToken.eth
origin_price OriginToken.sol = PriceToken.sol

abbrev pub frost_decimals : ℕ
frost_decimals = 9

abbrev pub mist_decimals : ℕ
mist_decimals = 9

abbrev pub native_decimals : OriginToken → ℕ
native_decimals OriginToken.eth = 18
native_decimals OriginToken.sol = 9

-- What the guard throws. `outside` is a failure of the oracle or of the cost estimate.
pub data GuardError : Type 0 where
  missing_price : PriceToken → GuardError
  negative : String → GuardError
  outside : String → GuardError

module _ {W : Type 0} (usd : Dollars W) where
  -- `prices[token]?.usd`.
  abbrev pub PriceSet : Type 0
  PriceSet = PriceToken → Option W

  pub record BreakEvenInputs : Type 0 where
    pub escrow_native : ℤ
    pub origin_token : OriginToken
    pub wal_cost_frost : ℤ
    pub return_lz_fee_mist : ℤ
    pub sui_gas_mist : ℤ
    pub min_margin_ratio : W
    pub prices : PriceToken → Option W

  pub record BreakEvenDecision : Type 0 where
    pub proceed : Bool
    pub escrow_usd : W
    pub cost_usd : W
    pub required_usd : W
    pub margin_usd : W
    pub margin_ratio : W

  unfoldable pub to_units : ℤ → ℕ → W
  to_units amount decimals = usd.div (usd.of_bigint amount) (usd.of_bigint (ℤ.pos (10 ^ decimals)))

  unfoldable pub amount_to_usd : ℤ → ℕ → W → W
  unfolding to_units
  amount_to_usd amount decimals price = usd.mul (to_units amount decimals) price

  -- A price that is there, finite and positive.
  unfoldable pub require_price : PriceToken → Option W → Result GuardError W
  require_price token none = err (GuardError.missing_price token)
  require_price token (some p) =
      if not (usd.is_finite p) || usd.le p usd.nought
      then err (GuardError.missing_price token)
      else ok p

  unfoldable pub require_non_negative : String → ℤ → Result GuardError Unit
  require_non_negative name v = if is_negative v then err (GuardError.negative name) else ok tt

  -- The arithmetic, once the inputs are checked.
  unfoldable pub weigh : BreakEvenInputs → W → W → W → BreakEvenDecision
  unfolding amount_to_usd
  weigh inputs wal_price sui_price price =
      let escrow_usd =
        amount_to_usd inputs.escrow_native (native_decimals inputs.origin_token) price in
      let wal_usd = amount_to_usd inputs.wal_cost_frost frost_decimals wal_price in
      let return_usd = amount_to_usd inputs.return_lz_fee_mist mist_decimals sui_price in
      let sui_gas_usd = amount_to_usd inputs.sui_gas_mist mist_decimals sui_price in
      let cost_usd = usd.add (usd.add wal_usd return_usd) sui_gas_usd in
      let required_usd = usd.mul cost_usd (usd.add usd.one inputs.min_margin_ratio) in
      let margin_usd = usd.sub escrow_usd cost_usd in
      record {
        proceed = usd.le required_usd escrow_usd;
        escrow_usd = escrow_usd;
        cost_usd = cost_usd;
        required_usd = required_usd;
        margin_usd = margin_usd;
        margin_ratio =
            if usd.lt usd.nought cost_usd then usd.div margin_usd cost_usd else usd.infinity;
      }

  unfoldable pub evaluate_break_even : BreakEvenInputs → Result GuardError BreakEvenDecision
  unfolding require_price require_non_negative weigh
  evaluate_break_even inputs = do
    wal_price ← require_price PriceToken.wal (inputs.prices PriceToken.wal)
    sui_price ← require_price PriceToken.sui (inputs.prices PriceToken.sui)
    let token = origin_price inputs.origin_token
    price ← require_price token (inputs.prices token)
    _ ← require_non_negative "escrowNative" inputs.escrow_native
    _ ← require_non_negative "walCostFrost" inputs.wal_cost_frost
    _ ← require_non_negative "returnLzFeeMist" inputs.return_lz_fee_mist
    _ ← require_non_negative "suiGasMist" inputs.sui_gas_mist
    ok (weigh inputs wal_price sui_price price)

  -- The inputs that a check passes on.
  abbrev pub inputs_of : BreakEvenCheck → W → PriceSet → ℤ → BreakEvenInputs
  inputs_of params min_margin_ratio prices wal_cost_frost = record {
    escrow_native = ℤ.pos params.escrow_native;
    origin_token = params.origin_token;
    wal_cost_frost = wal_cost_frost;
    return_lz_fee_mist = ℤ.pos params.return_lz_fee_mist;
    sui_gas_mist = ℤ.pos params.sui_gas_mist;
    min_margin_ratio = min_margin_ratio;
    prices = prices;
  }

  -- `check`: the oracle's prices and the live cost estimate come first, and may fail.
  unfoldable pub check :
      Result GuardError PriceSet
      → (ℕ → ℕ → Result GuardError ℤ)
      → W
      → BreakEvenCheck
      → Result GuardError BreakEvenDecision
  unfolding evaluate_break_even
  check get_prices estimate_wal_cost_frost min_margin_ratio params = do
    prices ← get_prices
    wal_cost_frost ← estimate_wal_cost_frost params.size_bytes params.epochs
    evaluate_break_even (inputs_of params min_margin_ratio prices wal_cost_frost)
