-- ===== src/RateLimit/Laws.antt =====
-- Laws of the limiter (relayer/src/api/rate-limit.ts): its size, and the budget of a key.
use bosphor.Base.{
  ℕ, String, Bool, suc, ◌+◌, ◌≤◌, ◌<◌, ◌≡◌, refl, some, List, [], ◌∷◌, false, is_some,
  if◌then◌else◌, str_eq, eq_iff, length, select, arith, Option-cases, inl, inr,
}
use bosphor.RateLimit.{
  Window, FixedWindowLimiter, Settings, get_window, set_window, is_open_at, evict, make_room, tidy,
  current, count_hit, hit,
}

length-select-le : (p : Window → Bool) (ws : List Window) → length (select p ws) ≤ length ws
length-select-le p [] = omega arith
length-select-le p (w ∷ ws) = ground (arith, length-select-le p ws)

pub length-set_window :
    (v : Window) (ws : List Window)
    → length (set_window v ws)
      ≡ (if is_some (get_window v.key ws) then length ws else suc (length ws))
unfolding set_window get_window
length-set_window v [] = refl
length-set_window v (w ∷ ws) = ground (arith, length-set_window v ws)

length-evict-lt : (n : ℕ) (ws : List Window) → 1 ≤ n → length (evict n ws) < n
unfolding evict
length-evict-lt n [] h = h
length-evict-lt n (w ∷ ws) h = ground (arith, length-evict-lt n ws h)

length-make_room-lt :
    (s : Settings) (now : ℕ) (l : FixedWindowLimiter)
    → 1 ≤ s.max_keys
    → length (make_room s now false l).windows < s.max_keys
unfolding make_room
length-make_room-lt s now l h =
    ground (arith, length-evict-lt s.max_keys (select (is_open_at now) l.windows) h)

pub length-tidy-le :
    (s : Settings) (now : ℕ) (l : FixedWindowLimiter)
    → length (tidy s now l).windows ≤ length l.windows
unfolding tidy
length-tidy-le s now l = ground (arith, length-select-le (is_open_at now) l.windows)

-- A window that is stored is found.
pub get-set_window :
    (v : Window) (ws : List Window) (key : String)
    → get_window key (set_window v ws) ≡ (if str_eq v.key key then some v else get_window key ws)
unfolding set_window get_window
get-set_window v [] key = refl
get-set_window v (w ∷ ws) key =
    ground (arith, get-set_window v ws key, eq_iff w.key v.key, eq_iff w.key key, eq_iff v.key key)

-- An open window survives a sweep.
pub get-select :
    (now : ℕ) (ws : List Window) (key : String) (w : Window)
    → get_window key ws ≡ some w
    → now < w.reset_at
    → get_window key (select (is_open_at now) ws) ≡ some w
unfolding get_window
get-select now [] key w h o = h
get-select now (v ∷ ws) key w h o = ground (arith, get-select now ws key w)

pub get_window-key :
    (key : String) (ws : List Window) (w : Window) → get_window key ws ≡ some w → w.key ≡ key
unfolding get_window
get_window-key key [] w h = ground arith
get_window-key key (v ∷ ws) w h = ground (arith, eq_iff v.key key, get_window-key key ws w)

module _ (s : Settings) (now : ℕ) (key : String) (l : FixedWindowLimiter) where
  -- The key's window is the one that the map then has under the key.
  pub current-get : get_window key (current s now key l).1.windows ≡ some (current s now key l).0
  unfolding current
  current-get = elim (Option-cases (get_window key l.windows)) [
    | inl e ↦
        ground (arith, get-set_window fresh (make_room s now false l).windows key, eq_iff key key)
    | inr (w, e) ↦ ground (arith, get-set_window fresh l.windows key, eq_iff key key)
  ]
    where
      fresh : Window
      fresh = record { key = key; count = 0; reset_at = now + s.window_ms }

  length-current-le :
      1 ≤ s.max_keys
      → length l.windows ≤ s.max_keys
      → length (current s now key l).1.windows ≤ s.max_keys
  unfolding current
  length-current-le h k = elim (Option-cases (get_window key l.windows)) [
    | inl e ↦ ground (
      arith,
      length-set_window (record { key = key; count = 0; reset_at = now + s.window_ms })
          (make_room s now false l).windows,
      length-make_room-lt s now l h,
    )
    | inr (w, e) ↦ ground (
      arith,
      length-set_window (record { key = key; count = 0; reset_at = now + s.window_ms }) l.windows,
    )
  ]

pub length-count_hit :
    (now limit : ℕ) (key : String) (w : Window) (l : FixedWindowLimiter)
    → get_window key l.windows ≡ some w
    → length (count_hit now limit (w, l)).1.windows ≡ length l.windows
unfolding count_hit
length-count_hit now limit key w l h = ground (
  arith,
  length-set_window (record w { count = suc w.count }) l.windows,
  get_window-key key l.windows w h,
)

-- A hit never makes the map larger than its cap.
pub hit-size :
    (s : Settings) (now : ℕ) (key : String) (limit : ℕ) (l : FixedWindowLimiter)
    → 1 ≤ s.max_keys
    → length l.windows ≤ s.max_keys
    → length (hit s now key limit l).1.windows ≤ s.max_keys
unfolding hit
hit-size s now key limit l h k = ground (
  arith,
  length-count_hit now limit key (current s now key (tidy s now l)).0
      (current s now key (tidy s now l)).1 (current-get s now key (tidy s now l)),
  length-current-le s now key (tidy s now l) h,
  length-tidy-le s now l,
)
