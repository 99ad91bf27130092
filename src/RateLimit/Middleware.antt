-- ===== src/RateLimit/Middleware.antt =====
-- The middleware of relayer/src/api/rate-limit.ts, with `parseAppId` of api/app-id.ts. `trim`,
-- `toLowerCase` and the test of APP_ID_PATTERN are parameters. A missing header is `none`.
pub mod Keys
pub mod Checks
pub mod PerIp
use bosphor.Base.{
  ℕ, String, Bool, true, false, not, ◌&&◌, ◌||◌, ◌+◌, ◌-◌, ◌/◌, Option, none, some, List, [], ◌∷◌,
  ◌++◌, if◌then◌else◌, ltb, ◌==◌, max, min, str_eq, any, or_else, coalesce,
}
use Prim.Native.String.{◌++◌ as str_append, find, slice, len}
use bosphor.RateLimit.{HitResult, FixedWindowLimiter, Settings, hit}

pub record TextOps : Type 0 where
  pub trim : String → String
  pub to_lower_case : String → String
  pub is_app_id : String → Bool

-- A header's value: one text, or those of a repeated header.
pub data HeaderValue : Type 0 where
  single : String → HeaderValue
  repeated : List String → HeaderValue

-- What the middleware reads of a request.
pub record RateLimitRequest : Type 0 where
  pub method : Option String
  pub original_url : Option String
  pub url : Option String
  pub headers : String → Option HeaderValue
  pub remote_address : Option String

pub record RateLimitConfig : Type 0 where
  pub enabled : Bool
  pub per_ip : ℕ
  pub per_app : ℕ
  pub bypass_keys : List String
  pub encode_per_ip : ℕ
  pub trust_proxy : Bool

pub data RateLimitScope : Type 0 where
  ip app encode : RateLimitScope

-- `s.split(mark)[0]`.
abbrev pub before_mark : String → String → String
before_mark mark s = slice s 0 (min (find s mark) (len s))

abbrev pub starts_with : String → String → Bool
starts_with s prefix = find s prefix == 0

-- `Array.isArray(v) ? v[0] : v`.
abbrev pub first_value : Option HeaderValue → Option String
first_value none = none
first_value (some (HeaderValue.single s)) = some s
first_value (some (HeaderValue.repeated [])) = none
first_value (some (HeaderValue.repeated (s ∷ more))) = some s

-- A text that is not empty.
abbrev pub if_text : String → Option String
if_text t = if str_eq t "" then none else some t

unfoldable pub is_rate_limited : Option String → String → Bool
is_rate_limited none path = false
is_rate_limited (some method) path =
    str_eq method "POST"
    || (str_eq method "GET" && (str_eq path "/lz-fee" || starts_with path "/lz-fee/"))

-- One budget to check.
pub record Check : Type 0 where
  pub scope : RateLimitScope
  pub key : String
  pub limit : ℕ

-- `next()`, with the tightest budget for the headers, or the 429 with its scope and `Retry-After`.
pub data Verdict : Type 0 where
  passed : (tightest : Option HitResult) → Verdict
  limited : (scope : RateLimitScope) → (limit retry_after : ℕ) → Verdict

-- `Math.max(1, Math.ceil(ms / 1000))`.
abbrev pub retry_after_of : ℕ → ℕ
retry_after_of ms = max 1 ((ms + 999) / 1000)

abbrev pub tighter : HitResult → Option HitResult → Option HitResult
tighter r none = some r
tighter r (some t) = if ltb r.remaining t.remaining then some r else some t

-- The loop over the checks: the first that is over its budget ends it. One reading of the clock serves
-- all checks of a request; the source reads it anew for each.
unfoldable pub check_all :
    Settings → ℕ → List Check → Option HitResult → FixedWindowLimiter → Verdict × FixedWindowLimiter
unfolding hit
check_all s now [] tightest l = (Verdict.passed tightest, l)
check_all s now (c ∷ cs) tightest l =
    let (r, m) = hit s now c.key c.limit l in
    let rest = check_all s now cs (tighter r tightest) m in
    if not r.allowed
    then (Verdict.limited c.scope r.limit (retry_after_of r.reset_in_ms), m)
    else rest

module _ (text : TextOps) where
  unfoldable pub first_header : Option HeaderValue → Option String
  first_header v = elim (first_value v) [ none ↦ none | some s ↦ if_text (text.trim s) ]

  -- The left-most X-Forwarded-For entry, if there is one.
  abbrev pub forwarded_for : Option String → Option String
  forwarded_for none = none
  forwarded_for (some xff) = if_text (text.trim (before_mark "," xff))

  unfoldable pub client_ip : RateLimitRequest → Bool → String
  unfolding first_header
  client_ip req trust_proxy =
      let peer = or_else req.remote_address "unknown" in
      if trust_proxy
      then or_else
          (coalesce (first_header (req.headers "cf-connecting-ip"))
            (forwarded_for (first_header (req.headers "x-forwarded-for"))))
          peer
      else peer

  -- The id that `parseAppId` accepts; none if the header is missing, blank or malformed.
  unfoldable pub parse_app_id : Option HeaderValue → Option String
  parse_app_id raw = elim (first_value raw) [
    | none ↦ none
    | some s ↦
        let value = text.trim s in
        if str_eq value "" || not (text.is_app_id value)
        then none
        else some (text.to_lower_case value)
  ]

  abbrev pub path_of : RateLimitRequest → String
  path_of req = before_mark "?" (or_else (coalesce req.original_url req.url) "")

  abbrev pub encode_checks : RateLimitConfig → String → String → List Check
  encode_checks cfg path address =
      if str_eq path "/blob/encode" || starts_with path "/blob/encode/"
      then record {
        scope = RateLimitScope.encode;
        key = str_append "encode:" address;
        limit = cfg.encode_per_ip;
      }
        ∷ []
      else []

  abbrev pub app_checks : RateLimitConfig → Option String → List Check
  app_checks cfg none = []
  app_checks cfg (some id) =
      if ltb 0 cfg.per_app && not (str_eq id "")
      then record { scope = RateLimitScope.app; key = str_append "app:" id; limit = cfg.per_app }
        ∷ []
      else []

  -- The checks of a request, the one of its address first.
  unfoldable pub checks_of : RateLimitConfig → RateLimitRequest → List Check
  unfolding client_ip parse_app_id
  checks_of cfg req =
      let address = client_ip req cfg.trust_proxy in
      record { scope = RateLimitScope.ip; key = str_append "ip:" address; limit = cfg.per_ip }
      ∷ (encode_checks cfg (path_of req) address
          ++ app_checks cfg (parse_app_id (req.headers "x-bosphor-app")))

  abbrev pub is_bypass : RateLimitConfig → Option String → Bool
  is_bypass cfg none = false
  is_bypass cfg (some key) = any (λ k. not (str_eq k "") && str_eq k key) cfg.bypass_keys

  -- Requests that go on without a budget.
  unfoldable pub is_exempt : RateLimitConfig → RateLimitRequest → Bool
  unfolding is_rate_limited first_header
  is_exempt cfg req =
      not cfg.enabled
      || not (is_rate_limited req.method (path_of req))
      || is_bypass cfg (first_header (req.headers "x-bosphor-key"))

  unfoldable pub handle :
      Settings
      → RateLimitConfig
      → ℕ
      → RateLimitRequest
      → FixedWindowLimiter
      → Verdict × FixedWindowLimiter
  unfolding is_exempt checks_of check_all
  handle s cfg now req l =
      if is_exempt cfg req
      then (Verdict.passed none, l)
      else check_all s now (checks_of cfg req) none l
