-- ===== src/Processor/Tick/Ready.antt =====
-- What a tick starts (relayer/src/intent/intent.processor.ts, `tick`).
use mathlib.Core.Path.{subst}
use bosphor.Base.{
  sym, ℕ, zero, suc, String, Bool, ◌≤◌, ◌≡◌, refl, Option, none, some, List, [], ◌∷◌, false, arith,
  All, length, str_eq,
}
use bosphor.Staged.Types.{StagedIntentRow}
use bosphor.Staged.Table.{Table, Keyed}
use bosphor.Staged.Lease.{IsLeased, drain_due-IsLeased}
use bosphor.Lifecycle.{IntentCommitment}
use bosphor.Processor.World.{Config}
use bosphor.Processor.Tick.{
  ReadyStore, is_past, is_skipped, ready_one, push, ready_stores, tick_stores,
}

module _ (now : ℕ) (in_process : String → Bool)
    (commitment : String → Option IntentCommitment) where
  -- A store that may start.
  pub record IsReady (r : ReadyStore) : Type 0 where
    pub free : in_process (r.row).intent_id ≡ false
    pub in_time : is_past now (r.row).deadline ≡ false
    pub from_feed : commitment (r.row).intent_id ≡ some r.commitment
    pub sent_by : (r.commitment).sender ≡ some r.sender
    pub named : str_eq r.sender "" ≡ false

  pub ready_one-IsReady :
      (row : StagedIntentRow) (r : ReadyStore)
      → ready_one now in_process commitment row ≡ some r
      → IsReady r × (r.row ≡ row)
  unfolding is_skipped
  ready_one-IsReady row r h = ground arith

  module _ (P : StagedIntentRow → Type 0) where
    push-All :
        (row : StagedIntentRow) (o : Option ReadyStore) (skipped taken : List ReadyStore)
        → ready_one now in_process commitment row ≡ o
        → P row
        → All (λ r. IsReady r × P r.row) skipped
        → All (λ r. IsReady r × P r.row) taken
        → All (λ r. IsReady r × P r.row) (push now in_process commitment o skipped taken)
    push-All row none skipped taken e p s t = s
    push-All row (some r) skipped taken e p s t =
        let (ready, same) = ready_one-IsReady row r e in ((ready, subst P (sym same) p), t)

    ready_stores-All :
        (room : ℕ) (rows : List StagedIntentRow)
        → All P rows
        → All (λ r. IsReady r × P r.row) (ready_stores now in_process commitment room rows)
    unfolding ready_stores
    ready_stores-All zero rows h = tt
    ready_stores-All (suc room) [] h = tt
    ready_stores-All (suc room) (row ∷ rows) (p, h) =
        push-All row _ _ _ refl p (ready_stores-All (suc room) rows h)
          (ready_stores-All room rows h)

  length-push-le :
      (room : ℕ) (o : Option ReadyStore) (skipped taken : List ReadyStore)
      → length skipped ≤ suc room
      → length taken ≤ room
      → length (push now in_process commitment o skipped taken) ≤ suc room
  length-push-le room none skipped taken s t = s
  length-push-le room (some r) skipped taken s t = omega (arith, t)

  length-ready_stores-le :
      (room : ℕ) (rows : List StagedIntentRow)
      → length (ready_stores now in_process commitment room rows) ≤ room
  unfolding ready_stores
  length-ready_stores-le zero rows = omega arith
  length-ready_stores-le (suc room) [] = omega arith
  length-ready_stores-le (suc room) (row ∷ rows) =
      length-push-le room _ _ _ (length-ready_stores-le (suc room) rows)
        (length-ready_stores-le room rows)

  -- A tick starts at most as many stores as the concurrency allows, and each is for a row that this
  -- process has just leased, that is active, due and actionable, not in process and not past its
  -- deadline, with the feed's commitment and its sender.
  pub tick_stores-IsReady :
      (config : Config) (who : String) (locked : String → Bool) (t : Table)
      → Keyed t
      → All
          (λ r. IsReady r × IsLeased now who config.lease_ms r.row)
          (tick_stores now in_process commitment config who locked t).0
        × (length (tick_stores now in_process commitment config who locked t).0
            ≤ config.store_concurrency)
  unfolding tick_stores
  tick_stores-IsReady config who locked t k = (
    ready_stores-All (IsLeased now who config.lease_ms) config.store_concurrency _
        (drain_due-IsLeased now config.batch_size who config.lease_ms locked t k),
    length-ready_stores-le config.store_concurrency _,
  )
