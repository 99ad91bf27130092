-- ===== src/RateLimit.antt =====
-- `FixedWindowLimiter` of relayer/src/api/rate-limit.ts. The map of windows is the list of its
-- entries in the order of insertion; a key that is set again keeps its place.
pub mod Laws
pub mod Budget
pub mod Middleware
pub mod Tests
use bosphor.Base.{
  ℕ, String, Bool, suc, ◌+◌, ◌-◌, Option, none, some, List, [], ◌∷◌, true, false, ◌&&◌, not,
  is_some, if◌then◌else◌, str_eq, leb, ltb, length, select,
}

pub record Window : Type 0 where
  pub key : String
  pub count : ℕ
  pub reset_at : ℕ

pub record HitResult : Type 0 where
  pub allowed : Bool
  pub limit : ℕ
  pub remaining : ℕ
  pub reset_in_ms : ℕ

pub record FixedWindowLimiter : Type 0 where
  pub windows : List Window
  pub hits_since_sweep : ℕ

-- The constructor's parameters.
pub record Settings : Type 0 where
  pub window_ms : ℕ
  pub sweep_every : ℕ
  pub max_keys : ℕ

-- `windows.get(key)`.
unfoldable pub get_window : String → List Window → Option Window
get_window key [] = none
get_window key (w ∷ ws) = if str_eq w.key key then some w else get_window key ws

-- `windows.set(key, w)`.
unfoldable pub set_window : Window → List Window → List Window
set_window v [] = v ∷ []
set_window v (w ∷ ws) = if str_eq w.key v.key then v ∷ ws else w ∷ set_window v ws

abbrev pub is_open_at : ℕ → Window → Bool
is_open_at now w = ltb now w.reset_at

-- `sweep`: the expired windows go.
abbrev pub sweep : ℕ → FixedWindowLimiter → FixedWindowLimiter
sweep now l = record { windows = select (is_open_at now) l.windows; hits_since_sweep = 0 }

-- The loop of the eviction: the first key goes as long as there are `max_keys` or more; it ends on an
-- empty map.
unfoldable pub evict : ℕ → List Window → List Window
evict max_keys [] = []
evict max_keys (w ∷ ws) = if leb max_keys (length (w ∷ ws)) then evict max_keys ws else w ∷ ws

unfoldable pub make_room : Settings → ℕ → Bool → FixedWindowLimiter → FixedWindowLimiter
unfolding evict
make_room s now known l =
    if not known && leb s.max_keys (length l.windows)
    then (let m = sweep now l in record m { windows = evict s.max_keys m.windows })
    else l

-- The sweep that is due every `sweep_every` hits.
unfoldable pub tidy : Settings → ℕ → FixedWindowLimiter → FixedWindowLimiter
tidy s now l =
    if leb s.sweep_every (suc l.hits_since_sweep)
    then sweep now l
    else record l { hits_since_sweep = suc l.hits_since_sweep }

-- The key's window, a new one if there is none or it is over; and the map with it.
unfoldable pub current : Settings → ℕ → String → FixedWindowLimiter → Window × FixedWindowLimiter
unfolding get_window set_window make_room
current s now key l =
    let fresh : Window = record { key = key; count = 0; reset_at = now + s.window_ms } in
    elim (get_window key l.windows) [
      | none ↦
          let m = make_room s now false l in
          (fresh, record m { windows = set_window fresh m.windows })
      | some w ↦
          if leb w.reset_at now
          then (fresh, record l { windows = set_window fresh l.windows })
          else (w, l)
    ]

-- The answer of a window, and the counted hit.
unfoldable pub count_hit : ℕ → ℕ → Window × FixedWindowLimiter → HitResult × FixedWindowLimiter
unfolding set_window
count_hit now limit (w, l) =
    if leb limit w.count
    then (
      record { allowed = false; limit = limit; remaining = 0; reset_in_ms = w.reset_at - now },
      l,
    )
    else (
      record {
        allowed = true;
        limit = limit;
        remaining = limit - suc w.count;
        reset_in_ms = w.reset_at - now;
      },
      record l { windows = set_window (record w { count = suc w.count }) l.windows },
    )

unfoldable pub hit : Settings → ℕ → String → ℕ → FixedWindowLimiter → HitResult × FixedWindowLimiter
unfolding tidy current count_hit
hit s now key limit l = count_hit now limit (current s now key (tidy s now l))
