-- ===== src/Pricing/Oracle/Trusted.antt =====
-- Prices are those of a source, and have passed each check.
use mathlib.Core.Path.{subst}
use bosphor.Base.{
  ℕ, String, ◌+◌, ◌≤◌, true, false, Option, none, some, List, ◌≡◌, sym, ap, ◌∙◌, ◌⊎◌, inl, inr,
  Bool-cases, Option-cases, coalesce, or_else, arith,
}
use bosphor.Base.Result.{Result, ok, next-ok, ok-injective}
use bosphor.Settlement.Dollars.{Dollars}
use bosphor.Settlement.Guard.{PriceToken}
use bosphor.Pricing.Oracle.{
  PricePoint, OracleConfig, PythParsed, GeckoEntry, Response, Numbers, Clock, OracleError, is_fresh,
  deviation, assert_sane, assert_consensus, fresh_or_none, chosen_or, reconcile, try_pyth,
  try_coin_gecko, Resolved, get_prices,
}
use bosphor.Pricing.Oracle.Sources.{try_pyth-token, try_coin_gecko-token}

some-injective : {A : Type 0} {x y : A} → some x ≡ some y → x ≡ y
some-injective {x = x} h = ap (λ o. or_else o x) h

module _ {W : Type 0} (usd : Dollars W) (config : OracleConfig W) where
  -- Published at most the staleness bound before.
  abbrev pub FreshAt : ℕ → PricePoint W → Type 0
  FreshAt now p = now ≤ p.publish_time_ms + config.max_staleness_ms

  -- A price for a token, from what the two sources gave.
  pub record IsTrusted (clock : Clock) (token : PriceToken)
      (primary fallback : Option (PricePoint W)) (p : PricePoint W) : Type 0 where
    pub given :
        ((primary ≡ some p) × FreshAt (clock.at_primary token) p)
        ⊎ ((fallback ≡ some p) × FreshAt (clock.at_fallback token) p)
    pub of_token : p.token ≡ token
    pub finite : usd.is_finite p.usd ≡ true
    pub positive : usd.le p.usd usd.nought ≡ false
    pub not_below : usd.lt p.usd (config.sanity_bounds token).min ≡ false
    pub not_above : usd.lt (config.sanity_bounds token).max p.usd ≡ false
    pub agreed :
        (a b : PricePoint W)
        → primary ≡ some a
        → fallback ≡ some b
        → FreshAt (clock.at_primary token) a
        → FreshAt (clock.at_fallback token) b
        → usd.lt config.max_deviation_ratio (deviation usd config a.usd b.usd) ≡ false

  record IsSane (p : PricePoint W) : Type 0 where
    finite : usd.is_finite p.usd ≡ true
    positive : usd.le p.usd usd.nought ≡ false
    not_below : usd.lt p.usd (config.sanity_bounds p.token).min ≡ false
    not_above : usd.lt (config.sanity_bounds p.token).max p.usd ≡ false

  assert_sane-IsSane : (p : PricePoint W) → assert_sane usd config p ≡ ok tt → IsSane p
  unfolding assert_sane
  assert_sane-IsSane p h = record {
    finite = ground arith;
    positive = ground arith;
    not_below = ground arith;
    not_above = ground arith;
  }

  is_fresh-FreshAt : (now : ℕ) (p : PricePoint W) → is_fresh usd config now p ≡ true → FreshAt now p
  unfolding is_fresh
  is_fresh-FreshAt now p h = ground arith

  fresh_or_none-some :
      (now : ℕ) (o : Option (PricePoint W)) (p : PricePoint W)
      → fresh_or_none usd config now o ≡ some p
      → (o ≡ some p) × FreshAt now p
  fresh_or_none-some now none p h = cc
  fresh_or_none-some now (some q) p h = elim (Bool-cases (is_fresh usd config now q)) [
    | inl fresh ↦
        let same : some q ≡ some p = rw fresh at h in
        (same, subst (FreshAt now) (some-injective same) (is_fresh-FreshAt now q fresh))
    | inr stale ↦ cc (rw stale at h)
  ]

  fresh_or_none-fresh :
      (now : ℕ) (p : PricePoint W) → FreshAt now p → fresh_or_none usd config now (some p) ≡ some p
  unfolding is_fresh
  fresh_or_none-fresh now p h = ground arith

  given_by :
      (clock : Clock) (token : PriceToken) (primary fallback : Option (PricePoint W))
      (p : PricePoint W) (e : OracleError)
      → chosen_or usd config e (
          coalesce
            (fresh_or_none usd config (clock.at_primary token) primary)
            (fresh_or_none usd config (clock.at_fallback token) fallback))
        ≡ ok p
      → ((primary ≡ some p) × FreshAt (clock.at_primary token) p)
        ⊎ ((fallback ≡ some p) × FreshAt (clock.at_fallback token) p)
  given_by clock token primary fallback p e h =
      elim (Option-cases (fresh_or_none usd config (clock.at_primary token) primary)) [
        | inr (q, first) ↦
            let same : q ≡ p = ok-injective q p (rw first at h) in
            inl (fresh_or_none-some (clock.at_primary token) primary p (first ∙ ap some same))
        | inl no_first ↦
            elim (Option-cases (fresh_or_none usd config (clock.at_fallback token) fallback)) [
              | inl no_second ↦ cc (rw (no_first, no_second) at h)
              | inr (q, second) ↦
                  let same : q ≡ p = ok-injective q p (rw (no_first, second) at h) in
                  inr (
                    fresh_or_none-some (clock.at_fallback token) fallback p (second ∙ ap some same))
            ]
      ]

  assert_consensus-agreed :
      (token : PriceToken) (a b : PricePoint W)
      → assert_consensus usd config token (some a) (some b) ≡ ok tt
      → usd.lt config.max_deviation_ratio (deviation usd config a.usd b.usd) ≡ false
  unfolding assert_consensus
  assert_consensus-agreed token a b h = ground arith

  reconcile-IsTrusted :
      (clock : Clock) (token : PriceToken) (primary fallback : Option (PricePoint W))
      (p : PricePoint W)
      → ((q : PricePoint W) → primary ≡ some q → q.token ≡ token)
      → ((q : PricePoint W) → fallback ≡ some q → q.token ≡ token)
      → reconcile usd config clock token primary fallback ≡ ok p
      → IsTrusted clock token primary fallback p
  unfolding reconcile
  reconcile-IsTrusted clock token primary fallback p own own' h =
      let (_, consents, h1) =
        next-ok
          (assert_consensus usd config token
            (fresh_or_none usd config (clock.at_primary token) primary)
            (fresh_or_none usd config (clock.at_fallback token) fallback))
          _ p h in
      let (chosen, picked, h2) =
        next-ok
          (chosen_or usd config _ (
            coalesce (fresh_or_none usd config (clock.at_primary token) primary)
              (fresh_or_none usd config (clock.at_fallback token) fallback)))
          _ p h1 in
      let (_, sane, h3) = next-ok (assert_sane usd config chosen) _ p h2 in
      let same : chosen ≡ p = ok-injective chosen p h3 in
      let is_sane : IsSane p = subst IsSane same (assert_sane-IsSane chosen sane) in
      let given = given_by clock token primary fallback p _ (picked ∙ ap ok same) in
      let own_token : p.token ≡ token = elim given [
        | inl (e, _) ↦ own p e
        | inr (e, _) ↦ own' p e
      ] in
      record {
        given = given;
        of_token = own_token;
        finite = is_sane.finite;
        positive = is_sane.positive;
        not_below =
            subst (λ t. usd.lt p.usd (config.sanity_bounds t).min ≡ false) own_token
              is_sane.not_below;
        not_above =
            subst (λ t. usd.lt (config.sanity_bounds t).max p.usd ≡ false) own_token
              is_sane.not_above;
        agreed = λ a b first second fresh_a fresh_b. assert_consensus-agreed token a b (
            sym (
              ap
                (λ o.
                  assert_consensus usd config token o
                    (fresh_or_none usd config (clock.at_fallback token) fallback))
                (ap (fresh_or_none usd config (clock.at_primary token)) first
                  ∙ fresh_or_none-fresh (clock.at_primary token) a fresh_a)
              ∙ ap (assert_consensus usd config token (some a)) (
                  ap (fresh_or_none usd config (clock.at_fallback token)) second
                  ∙ fresh_or_none-fresh (clock.at_fallback token) b fresh_b))
            ∙ consents);
      }

  module _ (numbers : Numbers W) where
    -- What `get_prices` gives for a token.
    abbrev pub TrustedFor :
        Clock
        → Option (Response (List (PythParsed W)))
        → Option (Response (String → Option (GeckoEntry W)))
        → PriceToken
        → PricePoint W
        → Type 0
    TrustedFor clock hermes gecko token p =
        IsTrusted clock token (try_pyth usd config numbers hermes token)
          (try_coin_gecko usd config numbers clock gecko token) p

    resolved-TrustedFor :
        (clock : Clock) (hermes : Option (Response (List (PythParsed W))))
        (gecko : Option (Response (String → Option (GeckoEntry W)))) (token : PriceToken)
        (p : PricePoint W)
        → reconcile usd config clock token
            (try_pyth usd config numbers hermes token)
            (try_coin_gecko usd config numbers clock gecko token)
          ≡ ok p
        → TrustedFor clock hermes gecko token p
    resolved-TrustedFor clock hermes gecko token p h =
        reconcile-IsTrusted clock token (try_pyth usd config numbers hermes token)
          (try_coin_gecko usd config numbers clock gecko token) p
          (try_pyth-token usd config numbers hermes token)
          (try_coin_gecko-token usd config numbers clock gecko token) h

    -- However the sources answer or fail: if there are prices at all, then each of the four is one
    -- that a source gave for its token, published within the staleness bound, finite, positive and
    -- within the token's sanity bounds; and where both sources gave a fresh price, these deviate by
    -- no more than the bound.
    pub get_prices-IsTrusted :
        (clock : Clock) (hermes : Option (Response (List (PythParsed W))))
        (gecko : Option (Response (String → Option (GeckoEntry W))))
        (prices : Resolved usd config numbers)
        → get_prices usd config numbers clock hermes gecko ≡ ok prices
        → TrustedFor clock hermes gecko PriceToken.wal prices.wal
          × TrustedFor clock hermes gecko PriceToken.sui prices.sui
          × TrustedFor clock hermes gecko PriceToken.eth prices.eth
          × TrustedFor clock hermes gecko PriceToken.sol prices.sol
    unfolding get_prices
    get_prices-IsTrusted clock hermes gecko prices h =
        let (wal, h_wal, h1) = next-ok (resolve PriceToken.wal) _ prices h in
        let (sui, h_sui, h2) = next-ok (resolve PriceToken.sui) _ prices h1 in
        let (eth, h_eth, h3) = next-ok (resolve PriceToken.eth) _ prices h2 in
        let (sol, h_sol, h4) = next-ok (resolve PriceToken.sol) _ prices h3 in
        let same = ok-injective (record { wal = wal; sui = sui; eth = eth; sol = sol }) prices h4 in
        let trusted = resolved-TrustedFor clock hermes gecko in
        (
          trusted PriceToken.wal prices.wal (h_wal ∙ ap (λ r. ok r.wal) same),
          trusted PriceToken.sui prices.sui (h_sui ∙ ap (λ r. ok r.sui) same),
          trusted PriceToken.eth prices.eth (h_eth ∙ ap (λ r. ok r.eth) same),
          trusted PriceToken.sol prices.sol (h_sol ∙ ap (λ r. ok r.sol) same),
        )
      where
        resolve : PriceToken → Result OracleError (PricePoint W)
        resolve token =
            reconcile usd config clock token (try_pyth usd config numbers hermes token)
              (try_coin_gecko usd config numbers clock gecko token)
