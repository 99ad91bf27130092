-- ===== src/Processor/Run.antt =====
-- `runStore` of relayer/src/intent/intent.processor.ts: an attempt under its timeout, and what a
-- failure does to the row. The timeout does not stop the work: it goes on after the failure is
-- handled. Of the ways in which the two can then mix, the model has the two extremes.
pub mod Retry
pub mod Queue
pub mod Once
use bosphor.Base.{
  ℕ, String, Bool, ◌+◌, ◌*◌, ◌^◌, Option, none, some, List, [], ◌∷◌, true, false, if◌then◌else◌,
  min, leb,
}
use bosphor.Base.Result.{Result, ok, err}
use bosphor.Staged.Types.{StagedIntentRow}
use bosphor.Staged.Progress.{mark_dead, reschedule}
use bosphor.Lifecycle.{IntentCommitment}
use bosphor.Processor.World.{
  M, Env, Config, World, Event, Failure, timeout, ◌>>=◌, ◌>>◌, pure, catch, also, emit, now, write,
}
use bosphor.Processor.Store.{message}
use bosphor.Processor.Outcome.Rows.{is_post}
use bosphor.Processor.Attempt.{store}

-- Which of the work and its timer was first, and where the work's remainder went.
pub data Race : Type 0 where
  in_time timer_then_work work_then_timer : Race

-- `Math.min(this.backoffBaseMs * 2 ** attempts, this.backoffCapMs)`.
unfoldable pub backoff : Config → ℕ → ℕ
backoff config attempts = min (config.backoff_base_ms * 2 ^ attempts) config.backoff_cap_ms

-- The number of attempts after which a failure of this phase ends the row.
unfoldable pub max_attempts : Config → Failure → ℕ
max_attempts config e = if is_post e then config.return_max_attempts else config.max_store_attempts

module _ {U : Type 0} (config : Config) (env : Env U) (row : StagedIntentRow) where
  -- The attempts are used up: the row is dead-lettered.
  unfoldable pub give_up : Failure → M U (Unit {0})
  give_up e = do
    write env (λ now. mark_dead now row.intent_id (message e))
    emit (Event.dead_letter (is_post e))

  unfoldable pub retry : Failure → ℕ → M U (Unit {0})
  retry e at = write env (λ now.
      reschedule now row.intent_id (row.attempts + 1) (at + backoff config (row.attempts + 1))
        (message e))

  -- The `catch` block of `runStore`.
  unfoldable pub handle_failure : Failure → M U (Unit {0})
  handle_failure e = do
    emit (Event.processed false)
    at ← now env
    if leb (max_attempts config e) (row.attempts + 1) then give_up e else retry e at

  module _ (sender : String) (commitment : Option IntentCommitment) where
    -- The work, once nobody waits for it.
    unfoldable pub work_on : M U (Unit {0})
    work_on = catch (store config env row sender commitment) (λ _. pure tt)

    unfoldable pub run_store : Race → M U (Unit {0})
    run_store Race.in_time =
        catch (do store config env row sender commitment; emit (Event.processed true))
          handle_failure
    run_store Race.timer_then_work = also (handle_failure timeout) work_on
    run_store Race.work_then_timer = do work_on; handle_failure timeout
