-- ===== src/Staged/Lease.antt =====
-- The lease of `drainDue` (relayer/src/staged/staged-intent.store.ts): what a claim hands out, and
-- that no other process is handed the same row while the lease runs.
use mathlib.Core.Path.{subst}
use bosphor.Base.{
  sym, ℕ, String, Bool, ◌+◌, ◌≤◌, ◌≡◌, ◌≢◌, refl, some, [], ◌∷◌, List, ◌||◌, true, false, arith,
  All, All-order_by, All-map, All-imp, select, Bool-cases, inl, inr, is_some, eq_iff,
}
use bosphor.Staged.Types.{Row, StagedIntentRow, StagedState, map_row}
use bosphor.Staged.Table.{Table, find, update_where, Keyed, find-update_where_hit, Keyed-found}
use bosphor.Staged.Claim.{drain_due, picked_by, is_picked, stamp, claimable}
use bosphor.Staged.Settled.{claim, Step-Keyed, Eligible, picked_by-Eligible}

-- What holds of a row that a claim by `who` at `now` hands out.
pub record IsLeased (now : ℕ) (who : String) (lease_ms : ℕ) (v : StagedIntentRow) : Type 0 where
  pub holder : v.claimed_by ≡ some who
  pub until : v.lease_expires_at ≡ some (now + lease_ms)
  pub in_play : v.state ≡ StagedState.active
  pub delivered : v.received ≡ true
  pub actionable : (v.has_bytes || is_some v.walrus_object_id) ≡ true
  pub due : v.next_attempt_at ≤ now

module _ (now limit : ℕ) (who : String) (lease_ms : ℕ) (locked : String → Bool) (t : Table) where
  stamped-IsLeased :
      (r : Row)
      → claimable now who locked r ≡ true
      → IsLeased now who lease_ms (map_row (stamp now who lease_ms r))
  unfolding claimable
  stamped-IsLeased r c = ground arith

-- A row that a claim hands out: the row that it was, and the row that the claim leaves.
pub record Handed (now : ℕ) (who : String) (lease_ms : ℕ) (locked : String → Bool) (t u : Table)
    (v : StagedIntentRow) : Type 0 where
  pub row : Row
  pub claimed : claimable now who locked row ≡ true
  pub before : find v.intent_id t ≡ some row
  pub after : find v.intent_id u ≡ some (stamp now who lease_ms row)
  pub view : v ≡ map_row (stamp now who lease_ms row)

module _ (now limit : ℕ) (who : String) (lease_ms : ℕ) (locked : String → Bool) (t : Table)
    (k : Keyed t) where
  claimable_of_picked :
      (r : Row) (picked : List Row)
      → All (Eligible now who locked t) picked
      → find r.intent_id t ≡ some r
      → is_picked picked r ≡ true
      → claimable now who locked r ≡ true
  claimable_of_picked r [] e f p = cc
  claimable_of_picked r (x ∷ picked) ((c, g), e) f p =
      ground (arith, claimable_of_picked r picked e f, eq_iff x.intent_id r.intent_id, same)
    where
      same : x.intent_id ≡ r.intent_id → x ≡ r
      same q = cc (f, g, q)

  module _ (picked : List Row) (e : All (Eligible now who locked t) picked) where
    abbrev left : Table
    left = update_where (is_picked picked) (stamp now who lease_ms) t

    Handed-rows :
        (us : Table)
        → All (λ x. find x.intent_id t ≡ some x) us
        → All
            (λ r. Handed now who lease_ms locked t left (map_row r))
            (select
              (is_picked picked)
              (update_where (is_picked picked) (stamp now who lease_ms) us))
    Handed-rows [] h = tt
    Handed-rows (r ∷ us) (f, h) = elim (Bool-cases (is_picked picked r)) [
      | inl p ↦ rw p (
          rw p (
            record {
              row = r;
              claimed = claimable_of_picked r picked e f p;
              before = f;
              after =
                  find-update_where_hit (is_picked picked) (stamp now who lease_ms) (λ _. refl)
                    r.intent_id t r f p;
              view = refl;
            },
            Handed-rows us h,
          ))
      | inr p ↦ rw p (rw p (Handed-rows us h))
    ]

  pub drain_due-Handed :
      let u = (drain_due now limit who lease_ms locked t).1 in
      All (Handed now who lease_ms locked t u) (drain_due now limit who lease_ms locked t).0
  unfolding drain_due
  drain_due-Handed =
      let picked = picked_by now limit who locked t in
      let e = picked_by-Eligible now limit who locked t k in
      All-order_by _ _ _ (All-map _ map_row _ (Handed-rows picked e t (Keyed-found t k)))

-- Every row that a claim returns is active, received, due and ready to store or to resume, and is
-- leased to the claimant until `now + lease_ms`.
pub drain_due-IsLeased :
    (now limit : ℕ) (who : String) (lease_ms : ℕ) (locked : String → Bool) (t : Table)
    → Keyed t
    → All (IsLeased now who lease_ms) (drain_due now limit who lease_ms locked t).0
drain_due-IsLeased now limit who lease_ms locked t k =
    All-imp _
      (λ v h.
        subst (IsLeased now who lease_ms) (sym h.view)
          (stamped-IsLeased now limit who lease_ms locked t h.row h.claimed))
      (drain_due-Handed now limit who lease_ms locked t k)

-- While the lease runs, a row handed to `who` is not handed to another process.
module _ (now limit : ℕ) (who : String) (lease_ms : ℕ) (locked : String → Bool) (t : Table)
    (now' limit' : ℕ) (who' : String) (lease_ms' : ℕ) (locked' : String → Bool) where
  not_claimable_of_leased :
      (r : Row)
      → who ≢ who'
      → now' ≤ now + lease_ms
      → claimable now' who' locked' (stamp now who lease_ms r) ≡ false
  unfolding claimable
  not_claimable_of_leased r ne le = ground (arith, eq_iff who who')

  pub drain_due-disjoint :
      Keyed t
      → who ≢ who'
      → now' ≤ now + lease_ms
      → All
          (λ w. All (λ v. w.intent_id ≢ v.intent_id) (drain_due now limit who lease_ms locked t).0)
          (drain_due now' limit' who' lease_ms' locked'
            (drain_due now limit who lease_ms locked t).1).0
  drain_due-disjoint k ne le =
      let u = (drain_due now limit who lease_ms locked t).1 in
      let keyed = Step-Keyed (claim t now limit who lease_ms locked) k in
      All-imp _
        (λ w hw.
          All-imp _
            (λ v hv e.
              cc (hv.after, hw.before, e, hw.claimed, not_claimable_of_leased hv.row ne le))
            (drain_due-Handed now limit who lease_ms locked t k))
        (drain_due-Handed now' limit' who' lease_ms' locked' u keyed)
