-- ===== src/RateLimit/Middleware/Checks.antt =====
-- What a run of checks leaves of a key's window.
use bosphor.Base.{
  ℕ, String, Bool, true, false, ◌+◌, ◌-◌, ◌≤◌, ◌<◌, ◌≡◌, refl, suc, Option, none, some, List, [],
  ◌∷◌, if◌then◌else◌, leb, str_eq, length, All, Bool-cases, inl, inr, arith,
}
use bosphor.RateLimit.{Window, HitResult, FixedWindowLimiter, Settings, get_window, hit}
use bosphor.RateLimit.Laws.{hit-size}
use bosphor.RateLimit.Budget.{hit_own, hit_other}
use bosphor.RateLimit.Middleware.{RateLimitScope, Check, Verdict, tighter, check_all}

module _ (s : Settings) (k : String) where
  -- The key's open window, and the room that `spare` more keys need.
  pub record Holds (w : Window) (spare : ℕ) (l : FixedWindowLimiter) : Type 0 where
    pub held : get_window k l.windows ≡ some w
    pub room : length l.windows + spare ≤ s.max_keys

  pub Holds-less :
      (w : Window) (n m : ℕ) (l : FixedWindowLimiter) → m ≤ n → Holds w n l → Holds w m l
  Holds-less w n m l h g = record { held = g.held; room = omega (arith, h, g.room) }

  -- Checks of other keys.
  pub check_all-others :
      (now : ℕ) (cs : List Check) (tightest : Option HitResult) (w : Window) (spare : ℕ)
      (l : FixedWindowLimiter)
      → All (λ c. str_eq c.key k ≡ false) cs
      → now < w.reset_at
      → Holds w (length cs + spare) l
      → Holds w spare (check_all s now cs tightest l).1
  unfolding check_all
  check_all-others now [] tightest w spare l a o h = Holds-less w _ spare l (omega arith) h
  check_all-others now (c ∷ cs) tightest w spare l (ne, a) o h =
      let m = (hit s now c.key c.limit l).1 in
      let (kept, grown) = hit_other s now k c.limit w l c.key h.held o ne (omega (arith, h.room)) in
      let after : Holds w (length cs + spare) m = record {
        held = kept;
        room = omega (arith, grown, h.room);
      } in
      elim (Bool-cases (hit s now c.key c.limit l).0.allowed) [
        | inl allows ↦ rw (allows) (
            check_all-others now cs (tighter (hit s now c.key c.limit l).0 tightest) w spare m a o
              after)
        | inr refuses ↦ rw (refuses) (Holds-less w (length cs + spare) spare m (omega arith) after)
      ]

abbrev pub is_passed : Verdict → Bool
is_passed (Verdict.passed tightest) = true
is_passed (Verdict.limited scope limit retry_after) = false

module _ (s : Settings) (k : String) (now : ℕ) where
  -- The key's own check comes first: at most what its limit leaves over is passed.
  pub check_all-own :
      (scope : RateLimitScope) (limit : ℕ) (cs : List Check) (w : Window) (spare : ℕ)
      (l : FixedWindowLimiter)
      → All (λ c. str_eq c.key k ≡ false) cs
      → now < w.reset_at
      → Holds s k w (length cs + spare) l
      → (v : Window) × (v.reset_at ≡ w.reset_at)
        × Holds s k v spare
            (check_all s now (record { scope = scope; key = k; limit = limit } ∷ cs) none l).1
        × ((if is_passed
                  (check_all s now (record { scope = scope; key = k; limit = limit } ∷ cs) none l).0
                then 1
                else 0)
              + (limit - v.count)
            ≤ limit - w.count)
  unfolding check_all
  check_all-own scope limit cs w spare l a o h =
      let r = (hit s now k limit l).0 in
      let m = (hit s now k limit l).1 in
      let (allows, got, grown) = hit_own s now k limit w l h.held o in
      elim (Bool-cases (leb limit w.count)) [
        | inl full ↦
            let no : r.allowed ≡ false = ground (arith, allows, full) in
            let got_w : get_window k m.windows ≡ some w = ground (arith, got, full) in
            rw (no)
              (w, refl, record { held = got_w; room = omega (arith, grown, h.room) }, omega arith)
        | inr left ↦
            let go : r.allowed ≡ true = ground (arith, allows, left) in
            let v : Window = record w { count = suc w.count } in
            let got_v : get_window k m.windows ≡ some v = ground (arith, got, left) in
            let after : Holds s k v (length cs + spare) m = record {
              held = got_v;
              room = omega (arith, grown, h.room);
            } in
            rw (go) (
              v,
              refl,
              check_all-others s k now cs (tighter r none) v spare m a o after,
              at_most_one (is_passed (check_all s now cs (tighter r none) m).0) limit w.count left,
            )
      ]
    where
      at_most_one :
          (b : Bool) (limit count : ℕ)
          → leb limit count ≡ false
          → (if b then 1 else 0) + (limit - suc count) ≤ limit - count
      at_most_one true limit count e = ground (arith, e)
      at_most_one false limit count e = ground (arith, e)

-- No run of checks makes the map larger than its cap.
pub check_all-size :
    (s : Settings) (now : ℕ) (cs : List Check) (tightest : Option HitResult)
    (l : FixedWindowLimiter)
    → 1 ≤ s.max_keys
    → length l.windows ≤ s.max_keys
    → length (check_all s now cs tightest l).1.windows ≤ s.max_keys
unfolding check_all
check_all-size s now [] tightest l p h = h
check_all-size s now (c ∷ cs) tightest l p h =
    elim (Bool-cases (hit s now c.key c.limit l).0.allowed) [
      | inl allows ↦ rw (allows) (
          check_all-size s now cs (tighter (hit s now c.key c.limit l).0 tightest)
            (hit s now c.key c.limit l).1 p (hit-size s now c.key c.limit l p h))
      | inr refuses ↦ rw (refuses) (hit-size s now c.key c.limit l p h)
    ]
