-- ===== src/Settlement/Covers.antt =====
-- The escrow of an intent that the guard lets through covers its cost.
use bosphor.Base.{
  ℕ, String, true, false, ◌≡◌, refl, ap, ◌∙◌, Option, none, some, Bool-cases, inl, inr,
}
use bosphor.Base.Result.{Result, ok, ok-injective, next-ok}
use mathlib.Core.Path.{subst}
use bosphor.Processor.World.{BreakEvenCheck}
use bosphor.Settlement.Dollars.{ℤ, Dollars, IsRounded}
use bosphor.Settlement.Guard.{
  PriceToken, GuardError, BreakEvenInputs, BreakEvenDecision, origin_price, amount_to_usd,
  require_price, require_non_negative, weigh, evaluate_break_even, check, inputs_of, PriceSet,
}

module _ {W : Type 0} (usd : Dollars W) where
  -- A decision to go on, made with a margin that is not negative.
  pub record Approves (d : BreakEvenDecision usd) : Type 0 where
    pub inputs : BreakEvenInputs usd
    pub evaluated : evaluate_break_even usd inputs ≡ ok d
    pub proceeds : d.proceed ≡ true
    pub margin : usd.le usd.nought inputs.min_margin_ratio ≡ true
    pub finite : usd.is_finite inputs.min_margin_ratio ≡ true

module _ {W : Type 0} (usd : Dollars W) (rounded : IsRounded usd) where
  -- A price that can be used.
  abbrev pub IsPrice : W → Type 0
  IsPrice p = (usd.is_finite p ≡ true) × (usd.le p usd.nought ≡ false)

  pub require_price-IsPrice :
      (token : PriceToken) (o : Option W) (p : W) → require_price usd token o ≡ ok p → IsPrice p
  unfolding require_price
  require_price-IsPrice token none p e = cc e
  require_price-IsPrice token (some q) p e = elim (Bool-cases (usd.is_finite q)) [
    | inr endless ↦ cc (rw (endless) at e)
    | inl finite ↦ elim (Bool-cases (usd.le q usd.nought)) [
      | inl low ↦ cc (rw (finite, low) at e)
      | inr positive ↦
          subst IsPrice (ok-injective q p (rw (finite, positive) at e)) (finite, positive)
    ]
  ]

  require_non_negative-pos :
      (name : String) (v : ℤ) (u : Unit {0})
      → require_non_negative usd name v ≡ ok u
      → (n : ℕ) × (v ≡ ℤ.pos n)
  unfolding require_non_negative
  require_non_negative-pos name (ℤ.pos n) u e = (n, refl)
  require_non_negative-pos name (ℤ.negsuc n) u e = cc e

  pub amount_to_usd-nonneg :
      (v : ℤ) (p : W)
      → (n : ℕ) × (v ≡ ℤ.pos n)
      → IsPrice p
      → usd.le usd.nought (amount_to_usd usd v 9 p) ≡ true
  unfolding amount_to_usd
  amount_to_usd-nonneg v p (n, e) (finite, positive) = rw (e) (
      rounded.mul_nonneg _ p (rounded.scaled_nonneg _ (rounded.of_bigint_nonneg n)) finite positive)

  -- The cost is not negative, so that what is required is at least the cost.
  weigh-covers :
      (inputs : BreakEvenInputs usd) (wal_price sui_price price : W)
      → IsPrice wal_price
      → IsPrice sui_price
      → ((n : ℕ) × (inputs.wal_cost_frost ≡ ℤ.pos n))
      → ((n : ℕ) × (inputs.return_lz_fee_mist ≡ ℤ.pos n))
      → ((n : ℕ) × (inputs.sui_gas_mist ≡ ℤ.pos n))
      → usd.le usd.nought inputs.min_margin_ratio ≡ true
      → usd.is_finite inputs.min_margin_ratio ≡ true
      → (weigh usd inputs wal_price sui_price price).proceed ≡ true
      → usd.le
          (weigh usd inputs wal_price sui_price price).cost_usd
          (weigh usd inputs wal_price sui_price price).escrow_usd
        ≡ true
  unfolding weigh
  weigh-covers inputs wal_price sui_price price w s c1 c2 c3 m f go =
      let cost =
        rounded.add_nonneg _ _
          (rounded.add_nonneg _ _ (amount_to_usd-nonneg inputs.wal_cost_frost wal_price c1 w)
            (amount_to_usd-nonneg inputs.return_lz_fee_mist sui_price c2 s))
          (amount_to_usd-nonneg inputs.sui_gas_mist sui_price c3 s) in
      rounded.le_trans _ _ _ (rounded.mul_grows _ inputs.min_margin_ratio cost m f) go

  pub Approves-covers :
      (d : BreakEvenDecision usd) → Approves usd d → usd.le d.cost_usd d.escrow_usd ≡ true
  unfolding evaluate_break_even
  Approves-covers d h =
      let i = h.inputs in
      let (wal_price, w, e1) =
        next-ok (require_price usd PriceToken.wal (i.prices PriceToken.wal)) _ d h.evaluated in
      let (sui_price, s, e2) =
        next-ok (require_price usd PriceToken.sui (i.prices PriceToken.sui)) _ d e1 in
      let (price, o, e3) =
        next-ok
          (require_price usd (origin_price i.origin_token) (i.prices (origin_price i.origin_token)))
          _ d e2 in
      let (u0, c0, e4) = next-ok (require_non_negative usd "escrowNative" i.escrow_native) _ d e3 in
      let (u1, c1, e5) =
        next-ok (require_non_negative usd "walCostFrost" i.wal_cost_frost) _ d e4 in
      let (u2, c2, e6) =
        next-ok (require_non_negative usd "returnLzFeeMist" i.return_lz_fee_mist) _ d e5 in
      let (u3, c3, e7) = next-ok (require_non_negative usd "suiGasMist" i.sui_gas_mist) _ d e6 in
      let same = ok-injective (weigh usd i wal_price sui_price price) d e7 in
      subst (λ x. usd.le x.cost_usd x.escrow_usd ≡ true) same
        (weigh-covers i wal_price sui_price price
          (require_price-IsPrice PriceToken.wal (i.prices PriceToken.wal) wal_price w)
          (require_price-IsPrice PriceToken.sui (i.prices PriceToken.sui) sui_price s)
          (require_non_negative-pos "walCostFrost" i.wal_cost_frost u1 c1)
          (require_non_negative-pos "returnLzFeeMist" i.return_lz_fee_mist u2 c2)
          (require_non_negative-pos "suiGasMist" i.sui_gas_mist u3 c3) h.margin h.finite
          (ap (λ x. x.proceed) same ∙ h.proceeds))

-- If rounding keeps the order: when a check of the guard with a finite margin that is not negative
-- says to go on, whatever oracle and estimate answered, then the escrow is worth at least the cost, and
-- what it leaves over is not below zero.
pub check-Covers :
    {W : Type 0} (usd : Dollars W) (get_prices : Result GuardError (PriceSet usd))
    (estimate : ℕ → ℕ → Result GuardError ℤ) (min_margin_ratio : W) (params : BreakEvenCheck)
    (d : BreakEvenDecision usd)
    → IsRounded usd
    → usd.le usd.nought min_margin_ratio ≡ true
    → usd.is_finite min_margin_ratio ≡ true
    → check usd get_prices estimate min_margin_ratio params ≡ ok d
    → d.proceed ≡ true
    → (usd.le d.cost_usd d.escrow_usd ≡ true)
      × (usd.lt (usd.sub d.escrow_usd d.cost_usd) usd.nought ≡ false)
unfolding check
check-Covers usd get_prices estimate min_margin_ratio params d rounded m f e go =
    let (prices, p, e1) = next-ok get_prices _ d e in
    let (cost, c, e2) = next-ok (estimate params.size_bytes params.epochs) _ d e1 in
    let covered = Approves-covers usd rounded d (record {
      inputs = inputs_of usd params min_margin_ratio prices cost;
      evaluated = e2;
      proceeds = go;
      margin = m;
      finite = f;
    }) in
    (covered, rounded.sub_nonneg d.escrow_usd d.cost_usd covered)
