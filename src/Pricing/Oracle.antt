-- ===== src/Pricing/Oracle.antt =====
-- relayer/src/pricing/price-oracle.ts with price-oracle.types.ts, over abstract doubles. The responses of
-- the two sources, the clock, and JavaScript's reading of numbers are the outside's.
pub mod Sources
pub mod Trusted
use bosphor.Base.{
  ℕ, String, ◌+◌, ◌*◌, ◌/◌, Bool, true, false, not, ◌||◌, Option, none, some, List, [], ◌∷◌,
  if◌then◌else◌, leb, str_eq, or_else, coalesce,
}
use bosphor.Base.Result.{Result, ok, err, ◌>>=◌}
use Prim.Native.String.{slice, len}
use bosphor.Settlement.Dollars.{ℤ, Dollars}
use bosphor.Settlement.Guard.{PriceToken}

module _ (W : Type 0) where
  pub record PricePoint : Type 0 where
    pub token : PriceToken
    pub usd : W
    pub publish_time_ms : ℕ
    pub source : String

  pub record Bounds : Type 0 where
    pub min : W
    pub max : W

  pub record OracleConfig : Type 0 where
    pub max_staleness_ms : ℕ
    pub max_deviation_ratio : W
    pub sanity_bounds : PriceToken → Bounds
    pub feed_ids : PriceToken → String
    pub ids : PriceToken → String

  -- An entry of Hermes, and one of CoinGecko.
  pub record PythPrice : Type 0 where
    pub price : String
    pub expo : ℤ
    pub publish_time : ℕ

  pub record PythParsed : Type 0 where
    pub id : String
    pub price : Option PythPrice

  pub record GeckoEntry : Type 0 where
    pub usd : Option W
    pub last_updated_at : Option ℕ

-- A response, whose status may tell of a failure; none is a fetch or a body that fails.
pub record Response (Body : Type 0) : Type 0 where
  pub is_ok : Bool
  pub json : Option Body

-- `Number(text)`, `10 ** expo` and `toLowerCase`.
pub record Numbers (W : Type 0) : Type 0 where
  pub number : String → W
  pub ten_to : ℤ → W
  pub lower_case : String → String

-- The readings of the clock, for each token: at the checks, and where CoinGecko gives no time.
pub record Clock : Type 0 where
  pub at_primary : PriceToken → ℕ
  pub at_fallback : PriceToken → ℕ
  pub at_fetch : PriceToken → ℕ

pub data OracleError : Type 0 where
  deviates only_stale no_source not_positive out_of_bounds : PriceToken → OracleError

module _ {W : Type 0} (usd : Dollars W) (config : OracleConfig W) where
  unfoldable pub is_fresh : ℕ → PricePoint W → Bool
  is_fresh now p = leb now (p.publish_time_ms + config.max_staleness_ms)

  -- `Math.min`; no price is NaN.
  abbrev lower_of : W → W → W
  lower_of a b = if usd.le a b then a else b

  abbrev absolute : W → W
  absolute a = if usd.lt a usd.nought then usd.sub usd.nought a else a

  unfoldable pub deviation : W → W → W
  deviation a b =
      let lo = lower_of a b in
      if usd.le lo usd.nought then usd.infinity else usd.div (absolute (usd.sub a b)) lo

  unfoldable pub assert_sane : PricePoint W → Result OracleError Unit
  assert_sane p =
      let bounds = config.sanity_bounds p.token in
      if not (usd.is_finite p.usd) || usd.le p.usd usd.nought
      then err (not_positive p.token)
      else if usd.lt p.usd bounds.min || usd.lt bounds.max p.usd
      then err (out_of_bounds p.token)
      else ok tt

  abbrev pub fresh_or_none : ℕ → Option (PricePoint W) → Option (PricePoint W)
  fresh_or_none now none = none
  fresh_or_none now (some p) = if is_fresh now p then some p else none

  unfoldable pub assert_consensus :
      PriceToken → Option (PricePoint W) → Option (PricePoint W) → Result OracleError Unit
  unfolding deviation
  assert_consensus token none fallback = ok tt
  assert_consensus token (some a) none = ok tt
  assert_consensus token (some a) (some b) =
      if usd.lt config.max_deviation_ratio (deviation a.usd b.usd)
      then err (deviates token)
      else ok tt

  -- Why there is nothing to choose.
  abbrev none_error : PriceToken → Option (PricePoint W) → Option (PricePoint W) → OracleError
  none_error token none none = no_source token
  none_error token none (some b) = only_stale token
  none_error token (some a) fallback = only_stale token

  abbrev pub chosen_or : OracleError → Option (PricePoint W) → Result OracleError (PricePoint W)
  chosen_or e none = err e
  chosen_or e (some p) = ok p

  unfoldable pub reconcile :
      Clock
      → PriceToken
      → Option (PricePoint W)
      → Option (PricePoint W)
      → Result OracleError (PricePoint W)
  unfolding is_fresh assert_consensus assert_sane
  reconcile clock token primary fallback =
      let fresh_primary = fresh_or_none (clock.at_primary token) primary in
      let fresh_fallback = fresh_or_none (clock.at_fallback token) fallback in
      do
        _ ← assert_consensus token fresh_primary fresh_fallback
        chosen ←
            chosen_or (none_error token primary fallback) (coalesce fresh_primary fresh_fallback)
        _ ← assert_sane chosen
        ok chosen

  module _ (numbers : Numbers W) where
    unfoldable pub normalize_hex : String → String
    normalize_hex id =
        let low = numbers.lower_case id in
        if str_eq (slice low 0 2) "0x" then slice low 2 (len low) else low

    -- `byId.get`, where the last entry of an id has replaced the others.
    unfoldable pub last_of : String → List (PythParsed W) → Option (PythParsed W)
    unfolding normalize_hex
    last_of id [] = none
    last_of id (p ∷ parsed) =
        coalesce (last_of id parsed) (if str_eq (normalize_hex p.id) id then some p else none)

    abbrev pub pyth_point : PriceToken → PythPrice W → Option (PricePoint W)
    pyth_point token p =
        let value = usd.mul (numbers.number p.price) (numbers.ten_to p.expo) in
        if not (usd.is_finite value)
        then none
        else some (record {
          token = token;
          usd = value;
          publish_time_ms = p.publish_time * 1000;
          source = "pyth";
        })

    abbrev pub pyth_of : PriceToken → Option (PythParsed W) → Option (PricePoint W)
    pyth_of token none = none
    pyth_of token (some entry) = elim entry.price [ none ↦ none | some p ↦ pyth_point token p ]

    abbrev pub body_of : {Body : Type 0} → Option (Response Body) → Option Body
    body_of none = none
    body_of (some response) = if not response.is_ok then none else response.json

    -- A token's price of Hermes, or none. A failure of the source is caught: no prices.
    unfoldable pub try_pyth :
        Option (Response (List (PythParsed W))) → PriceToken → Option (PricePoint W)
    unfolding last_of
    try_pyth response token = elim (body_of response) [
      | none ↦ none
      | some parsed ↦ pyth_of token (last_of (normalize_hex (config.feed_ids token)) parsed)
    ]

    abbrev pub gecko_of : Clock → PriceToken → GeckoEntry W → Option (PricePoint W)
    gecko_of clock token entry = elim entry.usd [
      | none ↦ none
      | some value ↦ some (record {
        token = token;
        usd = value;
        publish_time_ms = or_else entry.last_updated_at (clock.at_fetch token / 1000) * 1000;
        source = "coingecko";
      })
    ]

    unfoldable pub try_coin_gecko :
        Clock
        → Option (Response (String → Option (GeckoEntry W)))
        → PriceToken
        → Option (PricePoint W)
    try_coin_gecko clock response token = elim (body_of response) [
      | none ↦ none
      | some body ↦ elim (body (config.ids token)) [
        | none ↦ none
        | some entry ↦ gecko_of clock token entry
      ]
    ]

    pub record Resolved : Type 0 where
      pub wal : PricePoint W
      pub sui : PricePoint W
      pub eth : PricePoint W
      pub sol : PricePoint W

    unfoldable pub get_prices :
        Clock
        → Option (Response (List (PythParsed W)))
        → Option (Response (String → Option (GeckoEntry W)))
        → Result OracleError Resolved
    unfolding reconcile try_pyth try_coin_gecko
    get_prices clock hermes gecko =
        let resolve = λ (token : PriceToken).
          reconcile clock token (try_pyth hermes token) (try_coin_gecko clock gecko token) in
        do
          wal ← resolve PriceToken.wal
          sui ← resolve PriceToken.sui
          eth ← resolve PriceToken.eth
          sol ← resolve PriceToken.sol
          ok (record { wal = wal; sui = sui; eth = eth; sol = sol })
