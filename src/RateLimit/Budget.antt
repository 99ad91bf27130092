-- ===== src/RateLimit/Budget.antt =====
-- The budget of one key in one window (relayer/src/api/rate-limit.ts, `hit`).
use mathlib.Core.Path.{subst}
use bosphor.Base.{
  sym, ℕ, String, suc, ◌+◌, ◌-◌, ◌≤◌, ◌<◌, ◌≡◌, some, List, [], ◌∷◌, true, false, ◌&&◌,
  if◌then◌else◌, str_eq, eq_iff, leb, ltb, length, arith, Bool-cases, inl, inr, min, All, count_if,
}
use bosphor.RateLimit.{
  Window, FixedWindowLimiter, Settings, get_window, make_room, tidy, current, count_hit, hit,
}
use bosphor.RateLimit.Laws.{
  get-set_window, get-select, get_window-key, length-set_window, length-tidy-le, current-get,
  length-count_hit,
}

-- A call of `hit` for a key at a time.
pub record Hit : Type 0 where
  pub at : ℕ
  pub key : String
  pub limit : ℕ

-- The hits that a limiter allows of the key, and the limiter after all of them.
abbrev pub allowed_of : Settings → String → List Hit → FixedWindowLimiter → ℕ × FixedWindowLimiter
allowed_of s key [] l = (0, l)
allowed_of s key (h ∷ hs) l =
    let (r, m) = hit s h.at h.key h.limit l in
    let (n, e) = allowed_of s key hs m in ((if str_eq h.key key && r.allowed then suc n else n), e)

module _ (s : Settings) (now : ℕ) (key : String) (w : Window) (l : FixedWindowLimiter) where
  get-tidy :
      get_window key l.windows ≡ some w
      → now < w.reset_at
      → get_window key (tidy s now l).windows ≡ some w
  unfolding tidy
  get-tidy h o = ground (arith, get-select now l.windows key w)

  -- An open window is the current one.
  current_of_open :
      get_window key l.windows ≡ some w → now < w.reset_at → current s now key l ≡ (w, l)
  unfolding current
  current_of_open h o = ground arith

  -- Another key's window leaves this one alone while there is room.
  current_other :
      (other : String)
      → get_window key l.windows ≡ some w
      → str_eq other key ≡ false
      → length l.windows < s.max_keys
      → (get_window key (current s now other l).1.windows ≡ some w)
        × (length (current s now other l).1.windows ≤ suc (length l.windows))
  unfolding current make_room
  current_other other h ne room = (
    ground (arith, get-set_window fresh l.windows key),
    ground (arith, length-set_window fresh l.windows),
  )
    where
      fresh : Window
      fresh = record { key = other; count = 0; reset_at = now + s.window_ms }

module _ (s : Settings) (now : ℕ) (key : String) (limit : ℕ) (w : Window)
    (l : FixedWindowLimiter) where
  abbrev pub counted : Window
  counted = if leb limit w.count then w else record w { count = suc w.count }

  pub hit_own :
      get_window key l.windows ≡ some w
      → now < w.reset_at
      → ((hit s now key limit l).0.allowed ≡ ltb w.count limit)
        × (get_window key (hit s now key limit l).1.windows ≡ some counted)
        × (length (hit s now key limit l).1.windows ≤ length l.windows)
  unfolding hit count_hit
  hit_own h o = (
    ground (arith, current_of_open s now key w (tidy s now l), get-tidy s now key w l),
    ground (
      arith,
      current_of_open s now key w (tidy s now l),
      get-tidy s now key w l,
      get-set_window (record w { count = suc w.count }) (tidy s now l).windows key,
      get_window-key key l.windows w,
      eq_iff key key,
    ),
    ground (
      arith,
      current_of_open s now key w (tidy s now l),
      get-tidy s now key w l,
      length-set_window (record w { count = suc w.count }) (tidy s now l).windows,
      get_window-key key l.windows w,
      length-tidy-le s now l,
    ),
  )

  pub hit_other :
      (other : String)
      → get_window key l.windows ≡ some w
      → now < w.reset_at
      → str_eq other key ≡ false
      → length l.windows < s.max_keys
      → (get_window key (hit s now other limit l).1.windows ≡ some w)
        × (length (hit s now other limit l).1.windows ≤ suc (length l.windows))
  unfolding hit count_hit
  hit_other other h o ne room =
      let t = tidy s now l in
      let (kept, grown) =
        current_other s now key w t other (get-tidy s now key w l h o) ne
          (omega (arith, room, length-tidy-le s now l)) in
      (
        count_hit_other other (current s now other t).0 (current s now other t).1
            (current-get s now other t) ne kept,
        ground (
          arith,
          length-count_hit now limit other (current s now other t).0 (current s now other t).1
              (current-get s now other t),
          grown,
          length-tidy-le s now l,
        ),
      )
    where
      count_hit_other :
          (other : String) (v : Window) (m : FixedWindowLimiter)
          → get_window other m.windows ≡ some v
          → str_eq other key ≡ false
          → get_window key m.windows ≡ some w
          → get_window key (count_hit now limit (v, m)).1.windows ≡ some w
      count_hit_other other v m f ne k = ground (
        arith,
        get-set_window (record v { count = suc v.count }) m.windows key,
        get_window-key other m.windows v f,
        eq_iff other key,
      )

-- Hits before the reset, of the key with its limit.
abbrev pub InWindow : String → ℕ → ℕ → Hit → Type 0
InWindow key limit reset_at h = (h.at < reset_at) × (str_eq h.key key ≡ true → h.limit ≡ limit)

-- While the window of a key is open, and all the hits fit into the map, the limiter allows exactly as
-- many of the key's hits as its limit leaves over what was counted, or all of them if they are fewer;
-- the other keys' hits make no difference.
pub allowed_of-budget :
    (s : Settings) (key : String) (limit : ℕ) (hs : List Hit) (w : Window) (l : FixedWindowLimiter)
    → get_window key l.windows ≡ some w
    → All (InWindow key limit w.reset_at) hs
    → length l.windows + length hs ≤ s.max_keys
    → (allowed_of s key hs l).0 ≡ min (count_if (λ h. str_eq h.key key) hs) (limit - w.count)
allowed_of-budget s key limit [] w l f a room = omega arith
allowed_of-budget s key limit (h ∷ hs) w l f ((o, same), a) room =
    elim (Bool-cases (str_eq h.key key)) [
      | inl e ↦
          let m = (hit s h.at h.key h.limit l).1 in
          let k : h.key ≡ key = (eq_iff h.key key).0 e in
          let (allows, got, grown) =
            hit_own s h.at h.key h.limit w l
              (subst (λ c. get_window c l.windows ≡ some w) (sym k) f) o in
          elim (Bool-cases (leb limit w.count)) [
            | inl full ↦ ground (
              arith,
              same e,
              allows,
              allowed_of-budget s key limit hs w m (ground (arith, k, same e, got)) a
                  (omega (arith, room, grown)),
            )
            | inr left ↦ ground (
              arith,
              same e,
              allows,
              allowed_of-budget s key limit hs (record w { count = suc w.count }) m
                  (ground (arith, k, same e, got)) a (omega (arith, room, grown)),
            )
          ]
      | inr e ↦
          let m = (hit s h.at h.key h.limit l).1 in
          let (kept, grown) = hit_other s h.at key h.limit w l h.key f o e (omega (arith, room)) in
          ground (arith, allowed_of-budget s key limit hs w m kept a (omega (arith, room, grown)))
    ]
