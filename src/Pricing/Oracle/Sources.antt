-- ===== src/Pricing/Oracle/Sources.antt =====
-- A source gives a token's price as that token's.
use bosphor.Base.{
  String, Option, none, some, List, ◌≡◌, sym, ap, inl, inr, Bool-cases, Option-cases, or_else,
}
use bosphor.Settlement.Dollars.{Dollars}
use bosphor.Settlement.Guard.{PriceToken}
use bosphor.Pricing.Oracle.{
  PricePoint, OracleConfig, PythPrice, pyth_point, PythParsed, GeckoEntry, Response, Numbers, Clock,
  try_pyth, try_coin_gecko, body_of, pyth_of, gecko_of,
}

module _ {W : Type 0} (usd : Dollars W) (config : OracleConfig W) where
  module _ (numbers : Numbers W) where
    pyth_point-token :
        (token : PriceToken) (p : PythPrice W) (q : PricePoint W)
        → pyth_point usd config numbers token p ≡ some q
        → q.token ≡ token
    pyth_point-token token p q h =
        elim (Bool-cases
          (usd.is_finite (usd.mul (numbers.number p.price) (numbers.ten_to p.expo)))) [
            | inl finite ↦ ap (λ o. (or_else o q).token) (sym (rw finite at h))
            | inr endless ↦ cc (rw endless at h)
          ]

    pyth_of-token :
        (token : PriceToken) (entry : Option (PythParsed W)) (q : PricePoint W)
        → pyth_of usd config numbers token entry ≡ some q
        → q.token ≡ token
    pyth_of-token token none q h = cc
    pyth_of-token token (some entry) q h = elim (Option-cases entry.price) [
      | inl unpriced ↦ cc (rw unpriced at h)
      | inr (p, priced) ↦ pyth_point-token token p q (rw priced at h)
    ]

    pub try_pyth-token :
        (hermes : Option (Response (List (PythParsed W)))) (token : PriceToken) (q : PricePoint W)
        → try_pyth usd config numbers hermes token ≡ some q
        → q.token ≡ token
    unfolding try_pyth
    try_pyth-token hermes token q h = elim (Option-cases (body_of usd config numbers hermes)) [
      | inl failed ↦ cc (rw (failed, try_pyth) at h)
      | inr (parsed, came) ↦ pyth_of-token token _ q (rw (came, try_pyth) at h)
    ]

    gecko_of-token :
        (clock : Clock) (token : PriceToken) (entry : GeckoEntry W) (q : PricePoint W)
        → gecko_of usd config numbers clock token entry ≡ some q
        → q.token ≡ token
    gecko_of-token clock token entry q h = elim (Option-cases entry.usd) [
      | inl unpriced ↦ cc (rw unpriced at h)
      | inr (p, priced) ↦ ap (λ o. (or_else o q).token) (sym (rw priced at h))
    ]

    pub try_coin_gecko-token :
        (clock : Clock) (gecko : Option (Response (String → Option (GeckoEntry W))))
        (token : PriceToken) (q : PricePoint W)
        → try_coin_gecko usd config numbers clock gecko token ≡ some q
        → q.token ≡ token
    unfolding try_coin_gecko
    try_coin_gecko-token clock gecko token q h =
        elim (Option-cases (body_of usd config numbers gecko)) [
          | inl failed ↦ cc (rw (failed, try_coin_gecko) at h)
          | inr (body, came) ↦ elim (Option-cases (body (config.ids token))) [
            | inl missing ↦ cc (rw (came, missing, try_coin_gecko) at h)
            | inr (entry, found) ↦
                gecko_of-token clock token entry q (rw (came, found, try_coin_gecko) at h)
          ]
        ]
