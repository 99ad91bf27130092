-- ===== src/Pricing/Tests.antt =====
-- Whole dollars: a quote, and prices of which one source has failed.
use bosphor.Base.{
  String, ◌≤◌, ◌+◌, ◌*◌, ◌^◌, ◌≡◌, refl, true, false, Option, none, some, List, [], ◌∷◌,
  if◌then◌else◌, ◌==◌, arith,
}
use bosphor.Base.Result.{ok, err}
use bosphor.Processor.World.{OriginToken}
use bosphor.Settlement.Dollars.{ℤ}
use bosphor.Settlement.Guard.{PriceToken}
use bosphor.Settlement.Tests.{whole, whole-IsRounded, at_most, plus_of, decided, decision}
use bosphor.Settlement.Tests.{inputs as guarded}
use bosphor.Pricing.Quote.{
  Rounding, QuoteConfig, QuoteCostInputs, Quote, quote, outside, bad_epochs,
}
use bosphor.Pricing.Quote.Covers.{IsMonotone, IsSensible}
use bosphor.Walrus.StoreEpochs.{natural, Source, resolve}
use bosphor.Walrus.StoreEpochs.{resolved as stored_for}
use bosphor.Pricing.QuoteService.Covers.{service_quote-Covers}
use bosphor.Pricing.QuoteService.{QuoteEnv, QuoteRequest, service_quote}
use bosphor.Pricing.Oracle.{
  OracleConfig, PricePoint, PythParsed, Response, GeckoEntry, Numbers, Clock, Resolved, get_prices,
  deviates,
}
use bosphor.Pricing.Oracle.Trusted.{TrustedFor, get_prices-IsTrusted}

abbrev rounding : Rounding ℤ
rounding = record { larger = λ a b. if at_most a b then b else a; ceil_bigint = λ a. ok a }

sum_mono :
    (a b c d : ℤ)
    → at_most (ℤ.pos 0) a ≡ true
    → at_most (ℤ.pos 0) c ≡ true
    → at_most a b ≡ true
    → at_most c d ≡ true
    → at_most (plus_of a c) (plus_of b d) ≡ true
sum_mono (ℤ.pos a) (ℤ.pos b) (ℤ.pos c) (ℤ.pos d) h k p q = ground (arith, p, q)
sum_mono (ℤ.negsuc a) b c d h k p q = cc h
sum_mono (ℤ.pos a) (ℤ.negsuc b) c d h k p q = cc p
sum_mono (ℤ.pos a) (ℤ.pos b) (ℤ.negsuc c) d h k p q = cc k
sum_mono (ℤ.pos a) (ℤ.pos b) (ℤ.pos c) (ℤ.negsuc d) h k p q = cc q

sum_grows :
    (a b : ℤ)
    → at_most (ℤ.pos 0) a ≡ true
    → at_most (ℤ.pos 0) b ≡ true
    → at_most a (plus_of a b) ≡ true
sum_grows (ℤ.pos a) (ℤ.pos b) h k = ground arith
sum_grows (ℤ.pos a) (ℤ.negsuc b) h k = cc k
sum_grows (ℤ.negsuc a) b h k = cc h

larger_of :
    (a b : ℤ)
    → at_most (ℤ.pos 0) a ≡ true
    → at_most (ℤ.pos 0) b ≡ true
    → (at_most a (if at_most a b then b else a) ≡ true)
      × (at_most b (if at_most a b then b else a) ≡ true)
larger_of (ℤ.pos a) (ℤ.pos b) h k = ground arith
larger_of (ℤ.pos a) (ℤ.negsuc b) h k = cc k
larger_of (ℤ.negsuc a) b h k = cc h

rounding-IsMonotone : IsMonotone whole rounding
rounding-IsMonotone = record {
  add_mono = sum_mono;
  add_grows = sum_grows;
  larger_bounds = larger_of;
}

-- A buffer of once the return fee, a margin of once the escrow, and at least 3 dollars.
abbrev config : QuoteConfig whole
config = record {
  buffers = record { return_leg = ℤ.pos 1; sui_gas = ℤ.pos 0; wal = ℤ.pos 0; cross_rate = ℤ.pos 0 };
  service_margin_ratio = ℤ.pos 1;
  min_charge_usd = ℤ.pos 3;
}

config-IsSensible : IsSensible whole rounding config
config-IsSensible = record {
  wal = (refl, refl);
  return_leg = (refl, refl);
  sui_gas = (refl, refl);
  cross_rate = (refl, refl);
  margin = (refl, refl);
  min_charge = refl;
}

abbrev inputs : QuoteCostInputs whole
inputs = record {
  origin_token = OriginToken.sol;
  wal_cost_frost = ℤ.pos (2 * 10 ^ 9);
  return_lz_fee_mist = ℤ.pos (2 * 10 ^ 9);
  sui_gas_mist = ℤ.pos (10 ^ 9);
  forward_lz_fee_native = ℤ.pos 5;
  origin_gas_native = ℤ.pos 6;
}

abbrev prices : PriceToken → Option ℤ
prices token = some (ℤ.pos 1)

abbrev quoted : Quote whole
quoted = record {
  origin_token = OriginToken.sol;
  escrow_native = ℤ.pos (14 * 10 ^ 9);
  forward_native = ℤ.pos 11;
  total_native = ℤ.pos (14 * 10 ^ 9 + 11);
  breakdown = record {
    wal_cost_usd = ℤ.pos 2;
    return_lz_usd = ℤ.pos 2;
    sui_gas_usd = ℤ.pos 1;
    forward_lz_usd = ℤ.pos 0;
    origin_gas_usd = ℤ.pos 0;
    buffered_escrow_usd = ℤ.pos 7;
    service_margin_usd = ℤ.pos 7;
    escrow_usd = ℤ.pos 14;
    forward_usd = ℤ.pos 0;
    total_usd = ℤ.pos 14;
    floor_applied = false;
  };
  prices = prices;
}

quoted_lem : quote whole rounding config inputs prices ≡ ok quoted
unfolding quote
quoted_lem = refl

abbrev env : QuoteEnv whole
env = record {
  max_store_epochs = 53;
  config = config;
  return_lz_fee_mist = ok (ℤ.pos (2 * 10 ^ 9));
  sui_gas_mist = ok (ℤ.pos (10 ^ 9));
  get_prices = ok prices;
  estimate_wal_cost_frost =
      λ size epochs. if size == 0 then err (outside "empty") else ok (ℤ.pos (2 * 10 ^ 9));
}

abbrev request : QuoteRequest whole
request = record {
  size_bytes = 10;
  epochs = some 54;
  origin_token = OriginToken.sol;
  forward_lz_fee_native = some (ℤ.pos 5);
  origin_gas_native = some (ℤ.pos 6);
}

too_long : service_quote whole rounding env request ≡ err (bad_epochs 54)
unfolding service_quote
too_long = refl

served : service_quote whole rounding env (record request { epochs = none }) ≡ ok quoted
unfolding service_quote
served = refl

abbrev committed : QuoteRequest whole
committed = record request { epochs = some 0 }

committed_lem : service_quote whole rounding env committed ≡ ok quoted
unfolding service_quote
committed_lem = refl

stored_lem :
    resolve (record { default_epochs = 5; max_epochs = 53 }) (ok (natural 53)) (some (natural 0))
    ≡ ok (stored_for 1 Source.committed)
unfolding resolve
stored_lem = refl

service_quote-Covers_example :
    (0 ≤ 53) × (at_most (ℤ.pos 3) (ℤ.pos 14) ≡ true) × (at_most (ℤ.pos 5) (ℤ.pos 14) ≡ true)
service_quote-Covers_example =
    service_quote-Covers whole rounding env committed quoted 0 1
      (record { default_epochs = 5; max_epochs = 53 }) (ok (natural 53)) Source.committed guarded
      decision whole-IsRounded rounding-IsMonotone config-IsSensible refl committed_lem stored_lem
      refl refl refl refl decided

abbrev oracle : OracleConfig ℤ
oracle = record {
  max_staleness_ms = 60000;
  max_deviation_ratio = ℤ.pos 0;
  sanity_bounds = λ token. record { min = ℤ.pos 1; max = ℤ.pos 9 };
  feed_ids = λ token. "ab";
  ids = λ token. "walrus-2";
}

abbrev numbers : Numbers ℤ
numbers = record { number = λ text. ℤ.pos 4; ten_to = λ expo. ℤ.pos 1; lower_case = λ text. text }

abbrev clock : Clock
clock = record {
  at_primary = λ token. 1050000;
  at_fallback = λ token. 1050000;
  at_fetch = λ token. 1040000;
}

abbrev hermes : Option (Response (List (PythParsed ℤ)))
hermes = some (record {
  is_ok = true;
  json = some (
      record {
        id = "0xab";
        price = some (record { price = "4"; expo = ℤ.negsuc 7; publish_time = 1000 });
      }
      ∷ []);
})

abbrev gecko : Option ℤ → Option (Response (String → Option (GeckoEntry ℤ)))
gecko price = some (record {
  is_ok = true;
  json = some (λ id. some (record { usd = price; last_updated_at = none }));
})

abbrev point : PriceToken → PricePoint ℤ
point token = record { token = token; usd = ℤ.pos 4; publish_time_ms = 1000000; source = "pyth" }

abbrev resolved : Resolved whole oracle numbers
resolved = record {
  wal = point PriceToken.wal;
  sui = point PriceToken.sui;
  eth = point PriceToken.eth;
  sol = point PriceToken.sol;
}

resolved_lem : get_prices whole oracle numbers clock hermes (gecko none) ≡ ok resolved
unfolding get_prices
resolved_lem = refl

-- A second source with another price stops all.
disagreed :
    get_prices whole oracle numbers clock hermes (gecko (some (ℤ.pos 9)))
    ≡ err (deviates PriceToken.wal)
unfolding get_prices
disagreed = refl

get_prices-IsTrusted_example :
    TrustedFor whole oracle numbers clock hermes (gecko none) PriceToken.wal (point PriceToken.wal)
    × TrustedFor whole oracle numbers clock hermes
        (gecko none)
        PriceToken.sui
        (point PriceToken.sui)
    × TrustedFor whole oracle numbers clock hermes
        (gecko none)
        PriceToken.eth
        (point PriceToken.eth)
    × TrustedFor whole oracle numbers clock hermes
        (gecko none)
        PriceToken.sol
        (point PriceToken.sol)
get_prices-IsTrusted_example =
    get_prices-IsTrusted whole oracle numbers clock hermes (gecko none) resolved resolved_lem
