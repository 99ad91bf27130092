-- ===== src/Staged/Settled.antt =====
-- Terminal rows are absorbing for the queue's producers, claims and sweeps
-- (relayer/src/staged/staged-intent.store.ts: every such write is guarded by the row's state).
use mathlib.Core.Path.{subst}
use bosphor.Base.{
  sym, ℕ, String, Bool, ◌≡◌, refl, Option, some, [], ◌∷◌, List, true, false, arith, eq_iff, All,
  All-take, All-order_by, All-select, Option-cases, inl, inr,
}
use bosphor.Staged.Types.{Row, StagedBytes, ReceivedDetails, is_active}
use bosphor.Staged.Table.{
  Table, find, update, has_id, KeepsId, find-update_where_same, find-update_ne, Keyed, Keyed-found,
  find-intent_id, find-none_of_str_eq, update_where-Keyed,
}
use bosphor.Staged.Store.{
  upsert_bytes, mark_received, reschedule_byte_recovery, merge_bytes, merge_received,
}
use bosphor.Staged.Claim.{drain_due, picked_by, is_picked, claimable}
use bosphor.Staged.Reap.{expire_due, expire_unreceived}

-- The steps that other parts of the relayer take on the table at any moment: a delivery of bytes or
-- of the Sui event, a recovery backoff, a claim by any process, and the reaper's two expiries.
pub data Step : Table → Table → Type 0 where
  deliver_bytes :
      (t : Table) (now : ℕ) (id : String) (blob : StagedBytes) (limit : Option ℕ)
      → Step t (upsert_bytes now id blob limit t).1
  deliver_event :
      (t : Table) (now : ℕ) (id : String) (d : ReceivedDetails)
      → Step t (mark_received now id d t).1
  back_off :
      (t : Table) (now : ℕ) (id : String) (next_at : ℕ)
      → Step t (reschedule_byte_recovery now id next_at t)
  claim :
      (t : Table) (now limit : ℕ) (who : String) (lease_ms : ℕ) (locked : String → Bool)
      → Step t (drain_due now limit who lease_ms locked t).1
  expire : (t : Table) (now : ℕ) → Step t (expire_due now t).1
  expire_orphans : (t : Table) (cutoff now : ℕ) → Step t (expire_unreceived cutoff now t).1

pub data Steps (s : Table) : Table → Type 0 where
  here : Steps s s
  next : {t u : Table} → Steps s t → Step t u → Steps s u

-- A row under `id` that is settled.
abbrev pub Settled : String → Row → Table → Type 0
Settled id r t = (find id t ≡ some r) × (is_active r.state ≡ false)

-- An update of one id, made only if that id's row is active, passes over a settled row.
module _ (id key : String) (r q : Row) (f : Row → Row) (keeps : KeepsId f) (t : Table) where
  update_active_only :
      find id t ≡ some r
      → is_active r.state ≡ false
      → find key t ≡ some q
      → is_active q.state ≡ true
      → find id (update key f t) ≡ some r
  update_active_only h s k a =
      ground (arith, eq_iff key id, find-update_ne key f keeps t id, same_key)
    where
      same_key : key ≡ id → ⊥
      same_key e = cc (h, k, e, s, a)

-- What is known of a picked row: it was active, and its id leads to it.
abbrev pub Eligible : ℕ → String → (String → Bool) → Table → Row → Type 0
Eligible now who locked t x = (claimable now who locked x ≡ true) × (find x.intent_id t ≡ some x)

module _ (now limit : ℕ) (who : String) (locked : String → Bool) (t : Table) (k : Keyed t) where
  pub picked_by-Eligible : All (Eligible now who locked t) (picked_by now limit who locked t)
  unfolding picked_by
  picked_by-Eligible = All-take _ limit _ (
      All-order_by _ _ _
        (All-select (claimable now who locked) t (Keyed-found t k) (λ x c f. (c, f))))

  not_picked_of_settled :
      (r : Row) (picked : List Row)
      → find r.intent_id t ≡ some r
      → is_active r.state ≡ false
      → All (Eligible now who locked t) picked
      → is_picked picked r ≡ false
  unfolding claimable
  not_picked_of_settled r [] h s e = refl
  not_picked_of_settled r (x ∷ picked) h s ((c, f), e) =
      ground
        (arith, not_picked_of_settled r picked h s e, eq_iff x.intent_id r.intent_id, found_same)
    where
      found_same : x.intent_id ≡ r.intent_id → x ≡ r
      found_same e = cc (f, h, e)

-- Every step keeps the primary key.
pub Step-Keyed : {t u : Table} → Step t u → Keyed t → Keyed u
unfolding upsert_bytes mark_received reschedule_byte_recovery drain_due expire_due expire_unreceived
Step-Keyed (deliver_bytes t now id blob limit) k =
    ground (arith, update_where-Keyed (has_id id) (merge_bytes now blob) (λ r. refl) t k)
Step-Keyed (deliver_event t now id d) k =
    ground (arith, update_where-Keyed (has_id id) (merge_received now d) (λ r. refl) t k)
Step-Keyed (back_off t now id next_at) k = update_where-Keyed _ _ (λ r. refl) t k
Step-Keyed (claim t now limit who lease_ms locked) k = update_where-Keyed _ _ (λ r. refl) t k
Step-Keyed (expire t now) k = update_where-Keyed _ _ (λ r. refl) t k
Step-Keyed (expire_orphans t cutoff now) k = update_where-Keyed _ _ (λ r. refl) t k

module _ (id : String) (r : Row) where
  upsert_bytes-Settled :
      (t : Table) (now : ℕ) (blob : StagedBytes) (limit : Option ℕ) (key : String)
      → Settled id r t
      → Settled id r (upsert_bytes now key blob limit t).1
  unfolding upsert_bytes
  upsert_bytes-Settled t now blob limit key (h, s) = elim (Option-cases (find key t)) [
    | inl e ↦ ground (arith, find-none_of_str_eq key id t)
    | inr (q, e) ↦
        ground (arith, update_active_only id key r q (merge_bytes now blob) (λ r. refl) t h s e)
  ]

  mark_received-Settled :
      (t : Table) (now : ℕ) (d : ReceivedDetails) (key : String)
      → Settled id r t
      → Settled id r (mark_received now key d t).1
  unfolding mark_received
  mark_received-Settled t now d key (h, s) = elim (Option-cases (find key t)) [
    | inl e ↦ ground (arith, find-none_of_str_eq key id t)
    | inr (q, e) ↦
        ground (arith, update_active_only id key r q (merge_received now d) (λ r. refl) t h s e)
  ]

  Step-Settled : {t u : Table} → Step t u → Keyed t → Settled id r t → Settled id r u
  unfolding reschedule_byte_recovery drain_due expire_due expire_unreceived
  Step-Settled (deliver_bytes t now key blob limit) k h =
      upsert_bytes-Settled t now blob limit key h
  Step-Settled (deliver_event t now key d) k h = mark_received-Settled t now d key h
  Step-Settled (back_off t now key next_at) k (h, s) =
      (find-update_where_same _ _ (λ r. refl) id t r h (ground arith), s)
  Step-Settled (claim t now limit who lease_ms locked) k (h, s) = (
    find-update_where_same _ _ (λ r. refl) id t r h
        (not_picked_of_settled now limit who locked t k r _
          (subst (λ c. find c t ≡ some r) (sym (find-intent_id id t r h)) h) s
          (picked_by-Eligible now limit who locked t k)),
    s,
  )
  Step-Settled (expire t now) k (h, s) =
      (find-update_where_same _ _ (λ r. refl) id t r h (ground arith), s)
  Step-Settled (expire_orphans t cutoff now) k (h, s) =
      (find-update_where_same _ _ (λ r. refl) id t r h (ground arith), s)

  Steps-Keyed : {t u : Table} → Steps t u → Keyed t → Keyed u
  Steps-Keyed here k = k
  Steps-Keyed (next p st) k = Step-Keyed st (Steps-Keyed p k)

  -- However bytes, events, recovery backoffs, claims and expiries interleave, a settled row (done,
  -- dead or expired) of a keyed table keeps every column: nothing of these resurrects it.
  pub Steps-Settled : {t u : Table} → Steps t u → Keyed t → Settled id r t → Settled id r u
  Steps-Settled here k h = h
  Steps-Settled (next p st) k h = Step-Settled st (Steps-Keyed p k) (Steps-Settled p k h)
