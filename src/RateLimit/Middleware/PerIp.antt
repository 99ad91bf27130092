-- ===== src/RateLimit/Middleware/PerIp.antt =====
-- The budget of an address over a run of requests.
use mathlib.Core.Path.{subst}
use Prim.Native.String.{◌++◌ as str_append}
use bosphor.Base.{
  ℕ, String, Bool, true, false, not, ◌&&◌, ◌||◌, ◌+◌, ◌-◌, ◌*◌, ◌≤◌, ◌<◌, ◌≡◌, refl, sym, ap,
  Option, none, some, List, [], ◌∷◌, ◌++◌, if◌then◌else◌, ltb, str_eq, eq_iff, length,
  length-append, All, All-append, All-imp, Bool-cases, inl, inr, arith,
}
use bosphor.RateLimit.{Window, FixedWindowLimiter, Settings, get_window}
use bosphor.RateLimit.Middleware.{
  TextOps, RateLimitRequest, RateLimitConfig, RateLimitScope, Check, Verdict, check_all, client_ip,
  parse_app_id, path_of, encode_checks, app_checks, checks_of, is_exempt, handle, starts_with,
}
use bosphor.RateLimit.Middleware.Keys.{ip_key, ip_key-injective, other_key, encode_key, app_key}
use bosphor.RateLimit.Middleware.Checks.{
  Holds, Holds-less, is_passed, check_all-others, check_all-own, check_all-size,
}

-- A request at a time.
pub record Arrival : Type 0 where
  pub at : ℕ
  pub req : RateLimitRequest

module _ (text : TextOps) (s : Settings) (cfg : RateLimitConfig) where
  -- A request that counts for an address and is passed on.
  abbrev pub is_served : String → RateLimitRequest → Verdict → Bool
  is_served address req v =
      not (is_exempt text cfg req)
      && (str_eq (client_ip text req cfg.trust_proxy) address && is_passed v)

  -- How many requests of the address are passed on of those that count.
  abbrev pub served : String → List Arrival → FixedWindowLimiter → ℕ
  served address [] l = 0
  served address (a ∷ as_) l =
      let (v, m) = handle text s cfg a.at a.req l in
      let rest = served address as_ m in (if is_served address a.req v then 1 else 0) + rest

  -- The checks behind that of the address.
  abbrev more_checks : RateLimitRequest → List Check
  more_checks req =
      let peer = client_ip text req cfg.trust_proxy in
      encode_checks text cfg (path_of text req) peer
      ++ app_checks text cfg (parse_app_id text (req.headers "x-bosphor-app"))

  module _ (address : String) where
    encode_checks-others :
        (path peer : String)
        → All (λ c. str_eq c.key (ip_key address) ≡ false) (encode_checks text cfg path peer)
          × (length (encode_checks text cfg path peer) ≤ 1)
    encode_checks-others path peer =
        elim (Bool-cases (str_eq path "/blob/encode" || starts_with path "/blob/encode/")) [
          | inl yes_ ↦ rw (yes_) (
            (other_key (str_append "encode:" peer) address 101 (encode_key peer) refl, tt),
            omega arith,
          )
          | inr no_ ↦ rw (no_) (tt, omega arith)
        ]

    app_checks-others :
        (id : Option String)
        → All (λ c. str_eq c.key (ip_key address) ≡ false) (app_checks text cfg id)
          × (length (app_checks text cfg id) ≤ 1)
    app_checks-others none = (tt, omega arith)
    app_checks-others (some id) = elim (Bool-cases (ltb 0 cfg.per_app && not (str_eq id ""))) [
      | inl yes_ ↦
          rw (yes_)
            ((other_key (str_append "app:" id) address 97 (app_key id) refl, tt), omega arith)
      | inr no_ ↦ rw (no_) (tt, omega arith)
    ]

    more_checks-others :
        (req : RateLimitRequest)
        → All (λ c. str_eq c.key (ip_key address) ≡ false) (more_checks req)
          × (length (more_checks req) ≤ 2)
    more_checks-others req =
        let peer = client_ip text req cfg.trust_proxy in
        let id = parse_app_id text (req.headers "x-bosphor-app") in
        let (a, n) = encode_checks-others (path_of text req) peer in
        let (b, m) = app_checks-others id in
        (
          All-append (λ c. str_eq c.key (ip_key address) ≡ false)
              (encode_checks text cfg (path_of text req) peer) (app_checks text cfg id) a b,
          omega (
            arith,
            n,
            m,
            length-append (encode_checks text cfg (path_of text req) peer) (app_checks text cfg id),
          ),
        )

    -- What one request leaves of the address's budget.
    record Leaves (w : Window) (spare : ℕ) (req : RateLimitRequest)
        (o : Verdict × FixedWindowLimiter) : Type 0 where
      window : Window
      reset : window.reset_at ≡ w.reset_at
      holds : Holds s (ip_key address) window spare o.1
      budget :
          (if is_served address req o.0 then 1 else 0) + (cfg.per_ip - window.count)
          ≤ cfg.per_ip - w.count

    abbrev ip_check_of : String → Check
    ip_check_of peer = record { scope = RateLimitScope.ip; key = ip_key peer; limit = cfg.per_ip }

    abbrev ip_check : RateLimitRequest → Check
    ip_check req = ip_check_of (client_ip text req cfg.trust_proxy)

    ip_key-other :
        (peer : String)
        → str_eq peer address ≡ false
        → str_eq (ip_key peer) (ip_key address) ≡ false
    ip_key-other peer other = elim (Bool-cases (str_eq (ip_key peer) (ip_key address))) [
      | inr no_match ↦ no_match
      | inl same ↦
          let equal : str_eq peer address ≡ true =
            (eq_iff peer address).1 (ip_key-injective peer address same) in
          cc (equal, other)
    ]

    unserved :
        (req : RateLimitRequest) (v : Verdict)
        → str_eq (client_ip text req cfg.trust_proxy) address ≡ false
        → is_served address req v ≡ false
    unserved req v other = elim (Bool-cases (not (is_exempt text cfg req))) [
      | inl counts ↦ rw (counts, other) refl
      | inr exempt ↦ rw (exempt) refl
    ]

    checks_of_lem :
        (req : RateLimitRequest) → checks_of text cfg req ≡ ip_check req ∷ more_checks req
    unfolding checks_of
    checks_of_lem req = refl

    handle_lem :
        (now : ℕ) (req : RateLimitRequest) (l : FixedWindowLimiter)
        → handle text s cfg now req l ≡ (
            if is_exempt text cfg req
            then (Verdict.passed none, l)
            else check_all s now (checks_of text cfg req) none l)
    unfolding handle
    handle_lem now req l = refl

    Leaves-unserved :
        (w : Window) (spare : ℕ) (req : RateLimitRequest) (o : Verdict × FixedWindowLimiter)
        → is_served address req o.0 ≡ false
        → Holds s (ip_key address) w spare o.1
        → Leaves w spare req o
    Leaves-unserved w spare req o e h = record {
      window = w;
      reset = refl;
      holds = h;
      budget = rw (e) (omega arith);
    }

    own_check-Leaves :
        (now : ℕ) (req : RateLimitRequest) (w : Window) (spare : ℕ) (l : FixedWindowLimiter)
        → now < w.reset_at
        → is_exempt text cfg req ≡ false
        → str_eq (client_ip text req cfg.trust_proxy) address ≡ true
        → Holds s (ip_key address) w (length (more_checks req) + spare) l
        → Leaves w spare req (check_all s now (ip_check_of address ∷ more_checks req) none l)
    own_check-Leaves now req w spare l o counts same h =
        let (v, r, kept, b) =
          check_all-own s (ip_key address) now RateLimitScope.ip cfg.per_ip (more_checks req) w
            spare l (more_checks-others req).0 o h in
        record { window = v; reset = r; holds = kept; budget = rw (counts, same) b }

    checked-Leaves :
        (now : ℕ) (req : RateLimitRequest) (w : Window) (spare : ℕ) (l : FixedWindowLimiter)
        → now < w.reset_at
        → is_exempt text cfg req ≡ false
        → Holds s (ip_key address) w (3 + spare) l
        → Leaves w spare req (check_all s now (ip_check req ∷ more_checks req) none l)
    checked-Leaves now req w spare l o counts h =
        let peer = client_ip text req cfg.trust_proxy in
        let (a, n) = more_checks-others req in
        elim (Bool-cases (str_eq peer address)) [
          | inl same ↦
              subst (λ c. Leaves w spare req (check_all s now (c ∷ more_checks req) none l))
                (sym (ap ip_check_of ((eq_iff peer address).0 same)))
                (own_check-Leaves now req w spare l o counts same (
                  Holds-less s (ip_key address) w (3 + spare) (length (more_checks req) + spare) l
                    (omega (arith, n)) h))
          | inr other ↦
              Leaves-unserved w spare req
                (check_all s now (ip_check_of peer ∷ more_checks req) none l)
                (unserved req (check_all s now (ip_check_of peer ∷ more_checks req) none l).0 other)
                (check_all-others s (ip_key address) now (ip_check_of peer ∷ more_checks req) none w
                  spare l (ip_key-other peer other, a) o
                  (Holds-less s (ip_key address) w (3 + spare)
                    (length (ip_check_of peer ∷ more_checks req) + spare) l (omega (arith, n)) h))
        ]

    handle-Leaves :
        (now : ℕ) (req : RateLimitRequest) (w : Window) (spare : ℕ) (l : FixedWindowLimiter)
        → now < w.reset_at
        → Holds s (ip_key address) w (3 + spare) l
        → Leaves w spare req (handle text s cfg now req l)
    handle-Leaves now req w spare l o h =
        subst (Leaves w spare req) (sym (handle_lem now req l))
          (elim (Bool-cases (is_exempt text cfg req)) [
            | inl exempt ↦ rw (exempt) (
                Leaves-unserved w spare req (Verdict.passed none, l) (rw (exempt) refl)
                  (Holds-less s (ip_key address) w (3 + spare) spare l (omega arith) h))
            | inr counts ↦ rw (counts) (
                subst (λ cs. Leaves w spare req (check_all s now cs none l))
                  (sym (checks_of_lem req)) (checked-Leaves now req w spare l o counts h))
          ])

    served-le :
        (as_ : List Arrival) (w : Window) (l : FixedWindowLimiter)
        → All (λ a. a.at < w.reset_at) as_
        → Holds s (ip_key address) w (3 * length as_) l
        → served address as_ l ≤ cfg.per_ip - w.count
    served-le [] w l o h = omega arith
    served-le (a ∷ as_) w l (o, os) h =
        let d = handle-Leaves a.at a.req w (3 * length as_) l o (
          Holds-less s (ip_key address) w (3 * length (a ∷ as_)) (3 + 3 * length as_) l
            (omega arith) h) in
        let rest =
          served-le as_ d.window (handle text s cfg a.at a.req l).1
            (All-imp as_ (λ b before. omega (arith, before, d.reset)) os) d.holds in
        omega (arith, d.budget, rest)

-- While the window of an address is open, and the checks of all requests fit into the map, no more
-- counted requests of the address are passed on than the budget per address leaves over what the
-- window has counted, whatever the requests' other checks, paths, apps and addresses are.
pub served-le-budget :
    (text : TextOps) (s : Settings) (cfg : RateLimitConfig) (address : String) (as_ : List Arrival)
    (w : Window) (l : FixedWindowLimiter)
    → get_window (ip_key address) l.windows ≡ some w
    → All (λ a. a.at < w.reset_at) as_
    → length l.windows + 3 * length as_ ≤ s.max_keys
    → served text s cfg address as_ l ≤ cfg.per_ip - w.count
served-le-budget text s cfg address as_ w l f o room =
    served-le text s cfg address as_ w l o (record { held = f; room = room })

-- No request makes the limiter's map larger than its cap on keys, however many budgets it is checked
-- against.
pub handle-size :
    (text : TextOps) (s : Settings) (cfg : RateLimitConfig) (now : ℕ) (req : RateLimitRequest)
    (l : FixedWindowLimiter)
    → 1 ≤ s.max_keys
    → length l.windows ≤ s.max_keys
    → length (handle text s cfg now req l).1.windows ≤ s.max_keys
handle-size text s cfg now req l p h =
    subst (λ o. length o.1.windows ≤ s.max_keys) (sym (handle_lem text s cfg "" now req l))
      (elim (Bool-cases (is_exempt text cfg req)) [
        | inl exempt ↦ rw (exempt) h
        | inr counts ↦ rw (counts) (check_all-size s now (checks_of text cfg req) none l p h)
      ])
