-- ===== src/Staged/Reap.antt =====
-- Expiry, retention and the queue's gauges (relayer/src/staged/staged-intent.store.ts), and the
-- reaper's pass over them (relayer/src/staged/staged-reaper.service.ts).
use bosphor.Base.{
  ℕ, String, Bool, ◌-◌, Option, none, some, List, map, ◌&&◌, ◌||◌, false, not, is_some, select,
  count_if, ltb, if◌then◌else◌,
}
use bosphor.Staged.Types.{Row, StagedState, StagedStats, is_active, is_dead}
use bosphor.Staged.Table.{Table, update_where}
use bosphor.Staged.Store.{staged_bytes_total}

abbrev pub past : ℕ → Option ℕ → Bool
past now none = false
past now (some d) = ltb d now

abbrev pub overdue : ℕ → Row → Bool
overdue now r = is_active r.state && past now r.deadline

abbrev pub set_expired : ℕ → Row → Row
set_expired now r = record r { state = StagedState.expired; bytes = none; updated_at = now }

unfoldable pub expire_due : ℕ → Table → ℕ × Table
expire_due now t = (count_if (overdue now) t, update_where (overdue now) (set_expired now) t)

abbrev pub orphaned : ℕ → Row → Bool
orphaned cutoff r =
    is_active r.state && not r.received && not (is_some r.deadline) && ltb r.created_at cutoff

unfoldable pub expire_unreceived : ℕ → ℕ → Table → List String × Table
expire_unreceived cutoff now t = (
  map (λ r. r.intent_id) (select (orphaned cutoff) t),
  update_where (orphaned cutoff) (set_expired now) t,
)

abbrev pub purgeable : ℕ → Row → Bool
purgeable cutoff r =
    not (is_active r.state)
    && ltb r.updated_at cutoff
    && (not (is_some r.store_digest) || r.ledgered)

unfoldable pub purge_terminal : ℕ → Table → ℕ × Table
purge_terminal cutoff t = (count_if (purgeable cutoff) t, select (λ r. not (purgeable cutoff r)) t)

unfoldable pub stats : Table → StagedStats
unfolding staged_bytes_total
stats t = record {
  active = count_if (λ r. is_active r.state) t;
  dead = count_if (λ r. is_dead r.state) t;
  bytes = staged_bytes_total t;
}

pub record ReapReport : Type 0 where
  pub expired : ℕ
  pub orphans : List String
  pub purged : ℕ
  pub gauges : StagedStats

-- `reap`, at the clock's reading `now`: nothing while a pass is under way, and otherwise the statements
-- in order, up to the first that fails.
unfoldable pub reap : Bool → (ℕ → Bool) → ℕ → ℕ → ℕ → Table → Option ReapReport × Table
unfolding expire_due expire_unreceived purge_terminal stats
reap reaping fails retention_ms unreceived_ttl_ms now t =
    let (expired, t₁) = expire_due now t in
    let (orphans, t₂) = expire_unreceived (now - unreceived_ttl_ms) now t₁ in
    let (purged, t₃) = purge_terminal (now - retention_ms) t₂ in
    if reaping || fails 0
    then (none, t)
    else if fails 1
    then (none, t₁)
    else if fails 2
    then (none, t₂)
    else if fails 3
    then (none, t₃)
    else (
      some (record { expired = expired; orphans = orphans; purged = purged; gauges = stats t₃ }),
      t₃,
    )
