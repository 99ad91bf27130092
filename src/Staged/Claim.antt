-- ===== src/Staged/Claim.antt =====
-- The claim lease of `StagedIntentStore` (relayer/src/staged/staged-intent.store.ts, `drainDue`).
-- `locked` are the ids whose row lock another transaction holds (FOR UPDATE SKIP LOCKED); rows with
-- equal `created_at`, whose order SQL leaves open, are taken in table order.
use bosphor.Base.{
  ℕ, String, Bool, ◌+◌, Option, none, some, List, map, ◌&&◌, ◌||◌, false, not, str_eq, is_some,
  select, take, order_by, any, leb, ltb,
}
use bosphor.Staged.Types.{Row, StagedIntentRow, is_active, map_row}
use bosphor.Staged.Table.{Table, update_where, has_id}

abbrev pub is_claimant : String → Option String → Bool
is_claimant who none = false
is_claimant who (some holder) = str_eq holder who

abbrev pub lapsed : ℕ → Option ℕ → Bool
lapsed now none = false
lapsed now (some at) = ltb at now

-- The WHERE clause of the subselect.
unfoldable pub claimable : ℕ → String → (String → Bool) → Row → Bool
claimable now who locked r =
    is_active r.state
    && leb r.next_attempt_at now
    && (r.received && (is_some r.bytes || is_some r.walrus_object_id))
    && (not (is_some r.claimed_by) || is_claimant who r.claimed_by || lapsed now r.lease_expires_at)
    && not (locked r.intent_id)

unfoldable pub picked_by : ℕ → ℕ → String → (String → Bool) → Table → List Row
unfolding claimable order_by
picked_by now limit who locked t =
    take limit (order_by (λ r. r.created_at) (select (claimable now who locked) t))

abbrev pub is_picked : List Row → Row → Bool
is_picked picked r = any (has_id r.intent_id) picked

-- The SET list of the claim.
abbrev pub stamp : ℕ → String → ℕ → Row → Row
stamp now who lease_ms r = record r {
  claimed_by = some who;
  lease_expires_at = some (now + lease_ms);
  updated_at = now;
}

unfoldable pub drain_due :
    ℕ → ℕ → String → ℕ → (String → Bool) → Table → List StagedIntentRow × Table
unfolding picked_by
drain_due now limit who lease_ms locked t =
    let picked = picked_by now limit who locked t in
    let claimed = update_where (is_picked picked) (stamp now who lease_ms) t in
    (order_by (λ v. v.created_at) (map map_row (select (is_picked picked) claimed)), claimed)
