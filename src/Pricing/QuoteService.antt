-- ===== src/Pricing/QuoteService.antt =====
-- `QuoteService.quote` of relayer/src/pricing/quote.service.ts.
pub mod Covers
use bosphor.Base.{ℕ, Option, none, some, if◌then◌else◌, ltb, max, or_else}
use bosphor.Base.Result.{Result, ok, err, ◌>>=◌}
use bosphor.Processor.World.{OriginToken}
use bosphor.Walrus.StoreEpochs.{walrus_min_epochs}
use bosphor.Settlement.Dollars.{ℤ, Dollars}
use bosphor.Settlement.Guard.{PriceToken}
use bosphor.Pricing.Quote.{QuoteError, bad_epochs, Rounding, QuoteConfig, Quote, quote}

module _ {W : Type 0} (usd : Dollars W) where
  -- The request of `QuoteService.quote`, whose epochs are a natural if they are there.
  pub record QuoteRequest : Type 0 where
    pub size_bytes : ℕ
    pub epochs : Option ℕ
    pub origin_token : OriginToken
    pub forward_lz_fee_native : Option ℤ
    pub origin_gas_native : Option ℤ

  -- The settings that the service reads, of which two go through `BigInt`, and the answers of the oracle and of the cost estimate.
  pub record QuoteEnv : Type 0 where
    pub max_store_epochs : ℕ
    pub config : QuoteConfig usd
    pub return_lz_fee_mist : Result QuoteError ℤ
    pub sui_gas_mist : Result QuoteError ℤ
    pub get_prices : Result QuoteError (PriceToken → Option W)
    pub estimate_wal_cost_frost : ℕ → Option ℕ → Result QuoteError ℤ

  -- The epochs that are priced, or the refusal.
  unfoldable pub priced_epochs : QuoteEnv → Option ℕ → Result QuoteError (Option ℕ)
  priced_epochs env none = ok none
  priced_epochs env (some epochs) =
      if ltb env.max_store_epochs epochs
      then err (bad_epochs epochs)
      else ok (some (max epochs walrus_min_epochs))

  unfoldable pub service_quote :
      Rounding W → QuoteEnv → QuoteRequest → Result QuoteError (Quote usd)
  unfolding priced_epochs quote
  service_quote rounding env req = do
    epochs ← priced_epochs env req.epochs
    prices ← env.get_prices
    wal_cost_frost ← env.estimate_wal_cost_frost req.size_bytes epochs
    return_lz_fee_mist ← env.return_lz_fee_mist
    sui_gas_mist ← env.sui_gas_mist
    quote usd rounding env.config
        (record {
          origin_token = req.origin_token;
          wal_cost_frost = wal_cost_frost;
          return_lz_fee_mist = return_lz_fee_mist;
          sui_gas_mist = sui_gas_mist;
          forward_lz_fee_native = or_else req.forward_lz_fee_native (ℤ.pos 0);
          origin_gas_native = or_else req.origin_gas_native (ℤ.pos 0);
        })
        prices
