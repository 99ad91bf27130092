-- ===== src/Processor/Run/Retry.antt =====
-- What a failed attempt leaves (relayer/src/intent/intent.processor.ts, the `catch` of `runStore`).
use bosphor.Base.{ℕ, ◌+◌, ◌≤◌, ◌<◌, ◌≡◌, ◌⊎◌, none, some, String, List, arith}
use bosphor.Staged.Types.{Row, StagedIntentRow}
use bosphor.Staged.Table.{Table, RowIs}
use bosphor.Processor.World.{Env, Config, World, Event, Failure, plain}
use bosphor.Processor.Triple.{Triple}
use bosphor.Processor.Outcome.Rows.{IsDead, Is, IsThere, Tally}
use bosphor.Processor.Run.{backoff, max_attempts}

-- The wait before the next attempt never passes the cap.
pub backoff-le-cap : (config : Config) (n : ℕ) → backoff config n ≤ config.backoff_cap_ms
unfolding backoff
backoff-le-cap config n = omega arith

module _ {U : Type 0} (config : Config) (env : Env U) (row : StagedIntentRow) (e : Failure) where
  -- The row was dead-lettered, as its last attempt was used up; or it has one attempt more, fewer than
  -- the limit, waits at most the cap after some reading of the clock, and its lease is released.
  abbrev pub IsHandled : Row → Type 0
  IsHandled r =
      IsDead r × (max_attempts config e ≤ row.attempts + 1)
      ⊎ (r.attempts ≡ row.attempts + 1)
        × (row.attempts + 1 < max_attempts config e)
        × ((i : ℕ) × (r.next_attempt_at ≤ env.time i + config.backoff_cap_ms))
        × (r.claimed_by ≡ none)
        × (r.lease_expires_at ≡ none)

  module _ (P : Row → Type 0) where
    forget :
        (tr : List (Event U)) (t : Table)
        → RowIs row.intent_id (λ r. P r × Tally row.intent_id tr r) t
        → RowIs row.intent_id (λ r. IsThere row r × Tally row.intent_id tr r) t
    forget tr t (r, found, (_, n)) = (r, found, (tt, n))

    -- A statement of the queue was refused, its refusal was thrown, and the row is as it was.
    pub record IsRefused (thrown : Failure) (w : World U) : Type 0 where
      pub same : Is row P w
      pub refused : (i : ℕ) × ((m : String) × (env.queue_refuses i ≡ some m) × (thrown ≡ plain m))
