-- ===== src/Processor/Tick.antt =====
-- The claim loop: `tick` of relayer/src/intent/intent.processor.ts. `in_process` are the intents whose
-- stores are still running, `commitment` is the feed's answer for an intent.
pub mod Ready
use bosphor.Base.{
  ℕ, zero, suc, String, Bool, ◌-◌, Option, none, some, List, [], ◌∷◌, true, false, not, ◌&&◌, ◌||◌,
  if◌then◌else◌, is_some, leb, length, str_eq,
}
use bosphor.Staged.Types.{StagedIntentRow}
use bosphor.Staged.Table.{Table}
use bosphor.Staged.Claim.{drain_due}
use bosphor.Lifecycle.{IntentCommitment}
use bosphor.Processor.World.{Config}

-- What `runStore` is called with.
pub record ReadyStore : Type 0 where
  pub row : StagedIntentRow
  pub sender : String
  pub commitment : IntentCommitment

-- `row.deadline != null && now >= row.deadline`.
abbrev pub is_past : ℕ → Option ℕ → Bool
is_past now none = false
is_past now (some deadline) = leb deadline now

-- The sender of the commitment; an empty one counts as none.
abbrev pub sender_of : Option IntentCommitment → Option (String × IntentCommitment)
sender_of none = none
sender_of (some c) = elim c.sender [
  | none ↦ none
  | some s ↦ if str_eq s "" then none else some (s, c)
]

module _ (now : ℕ) (in_process : String → Bool)
    (commitment : String → Option IntentCommitment) where
  -- The tests that a row is skipped by, before the feed is asked.
  unfoldable pub is_skipped : StagedIntentRow → Bool
  is_skipped row =
      in_process row.intent_id
      || not row.received
      || (not row.has_bytes && not (is_some row.walrus_object_id))
      || is_past now row.deadline

  abbrev pub ready_one : StagedIntentRow → Option ReadyStore
  ready_one row = if is_skipped row then none else elim (sender_of (commitment row.intent_id)) [
    | none ↦ none
    | some (s, c) ↦ some (record { row = row; sender = s; commitment = c })
  ]

  abbrev pub push : Option ReadyStore → List ReadyStore → List ReadyStore → List ReadyStore
  push none skipped taken = skipped
  push (some r) skipped taken = r ∷ taken

  -- The loop over the claimed rows: it ends with `room` stores.
  unfoldable pub ready_stores : ℕ → List StagedIntentRow → List ReadyStore
  ready_stores zero rows = []
  ready_stores (suc room) [] = []
  ready_stores (suc room) (row ∷ rows) =
      push (ready_one row) (ready_stores (suc room) rows) (ready_stores room rows)

  -- The claim, and the stores that the tick starts.
  unfoldable pub tick_stores : Config → String → (String → Bool) → Table → List ReadyStore × Table
  tick_stores config who locked t =
      let (rows, u) = drain_due now config.batch_size who config.lease_ms locked t in
      (ready_stores config.store_concurrency rows, u)
