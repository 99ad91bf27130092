-- ===== src/RateLimit/Tests.antt =====
-- A client with a budget of two.
use bosphor.Base.{
  ◌≤◌, ◌-◌, ◌≡◌, refl, none, some, if◌then◌else◌, List, [], ◌∷◌, true, false, arith, min, count_if,
  str_eq,
}
use bosphor.RateLimit.{Window, Settings, FixedWindowLimiter, get_window, hit}
use bosphor.RateLimit.Middleware.{TextOps, HeaderValue, RateLimitRequest, RateLimitConfig, handle}
use bosphor.RateLimit.Middleware.PerIp.{Arrival, served, served-le-budget}
use bosphor.RateLimit.Budget.{Hit, allowed_of, allowed_of-budget}

abbrev settings : Settings
settings = record { window_ms = 100; sweep_every = 1000; max_keys = 10 }

abbrev client : Window
client = record { key = "ip:1"; count = 1; reset_at = 200 }

abbrev limiter : FixedWindowLimiter
limiter = record { windows = client ∷ []; hits_since_sweep = 0 }

abbrev hits : List Hit
hits =
    record { at = 110; key = "ip:1"; limit = 2 }
    ∷ record { at = 120; key = "ip:2"; limit = 9 }
    ∷ record { at = 130; key = "ip:1"; limit = 2 }
    ∷ []

third_refused : (hit settings 130 "ip:1" 1 limiter).0.allowed ≡ false
unfolding hit
third_refused = refl

allowed_of-budget_example :
    (allowed_of settings "ip:1" hits limiter).0
    ≡ min (count_if (λ h. str_eq h.key "ip:1") hits) (2 - client.count)
unfolding get_window
allowed_of-budget_example =
    allowed_of-budget settings "ip:1" 2 hits client limiter refl
      ((omega arith, λ _. refl), ((omega arith, λ e. cc e), ((omega arith, λ _. refl), tt)))
      (omega arith)

abbrev plain_text : TextOps
plain_text = record { trim = λ text. text; to_lower_case = λ text. text; is_app_id = λ text. true }

abbrev config : RateLimitConfig
config = record {
  enabled = true;
  per_ip = 3;
  per_app = 5;
  bypass_keys = "key" ∷ [];
  encode_per_ip = 2;
  trust_proxy = true;
}

-- A request through a proxy, with an app id.
abbrev encode_request : RateLimitRequest
encode_request = record {
  method = some "POST";
  original_url = some "/blob/encode?x=1";
  url = none;
  headers = λ name.
      if str_eq name "x-forwarded-for"
      then some (HeaderValue.single "1,10.0.0.9")
      else if str_eq name "x-bosphor-app"
      then some (HeaderValue.repeated ("app" ∷ []))
      else none;
  remote_address = some "10.0.0.9";
}

abbrev arrivals : List Arrival
arrivals =
    record { at = 110; req = encode_request }
    ∷ record { at = 120; req = record encode_request { method = some "OPTIONS" } }
    ∷ record { at = 130; req = encode_request }
    ∷ record { at = 140; req = encode_request }
    ∷ []

two_served : served plain_text settings config "1" arrivals limiter ≡ 2
unfolding handle
two_served = refl

served-le-budget_example :
    served plain_text (record settings { max_keys = 20 }) config "1" arrivals limiter
    ≤ 3 - client.count
unfolding get_window
served-le-budget_example =
    served-le-budget plain_text (record settings { max_keys = 20 }) config "1" arrivals client
      limiter refl (ground arith) (omega arith)
