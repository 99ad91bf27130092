-- ===== src/Processor/Engine/Tests.antt =====
-- Ticks that overlap, on one row.
use bosphor.Base.{String, false, ◌≡◌, refl, Option, some, List, [], ◌∷◌, if◌then◌else◌, arith}
use bosphor.Staged.Types.{StagedIntentRow}
use bosphor.Staged.Claim.{drain_due}
use bosphor.Lifecycle.{IntentCommitment}
use bosphor.Processor.Tick.{is_skipped}
use bosphor.Processor.Engine.{
  Event, ticks, wakes, fires, claims, looks, launches, ends, sweeps, at_start, run_events, has,
}
use bosphor.Processor.Engine.Guards.{Forward, Spaced, starts, run_events-IsGuarded}
use bosphor.Processor.Engine.Sets.{Distinct}
use bosphor.Processor.Engine.Rows.{OfQueue}
use bosphor.Processor.Engine.Exclusive.{AllPrompt, run_events-NoTwo}
use bosphor.Processor.Tests.{ready, known}

abbrev given : List StagedIntentRow
given = (drain_due 1000 20 "A" 600000 (λ _. false) (ready ∷ [])).0

abbrev answer : Option (List StagedIntentRow)
answer = some given

abbrev asked : Option (Option IntentCommitment)
asked = some (known "i1")

-- The first tick's store times out and goes on; the second tick, which comes too early, is none; the
-- third one finds the row again and leaves it alone.
abbrev events : List Event
events =
    ticks 1000
    ∷ claims 0 answer
    ∷ looks 0 asked
    ∷ launches 0
    ∷ ticks 2000
    ∷ ends 0
    ∷ wakes
    ∷ wakes
    ∷ fires 3000
    ∷ claims 0 answer
    ∷ looks 0 asked
    ∷ launches 0
    ∷ sweeps
    ∷ sweeps
    ∷ []

one_store : (run_events 4 5000 events at_start).running ≡ "i1" ∷ []
unfolding run_events drain_due is_skipped
one_store = refl

-- The second tick claims the row that the first one has, as the lease is the process's own; once the
-- first goes on, the store runs twice.
abbrev outlasted : List Event
outlasted =
    ticks 1000
    ∷ claims 0 answer
    ∷ looks 0 asked
    ∷ ticks 6000
    ∷ claims 0 answer
    ∷ looks 0 asked
    ∷ launches 0
    ∷ launches 1
    ∷ []

two_stores : (run_events 4 5000 outlasted at_start).running ≡ "i1" ∷ "i1" ∷ []
unfolding run_events drain_due is_skipped
two_stores = refl

answer-OfQueue : OfQueue answer
answer-OfQueue = (ready ∷ [], 1000, 20, "A", 600000, λ _. false, (refl, tt), refl)

events-AllPrompt : AllPrompt 4 5000 events at_start
unfolding run_events drain_due is_skipped
events-AllPrompt = (
  tt,
  (
    answer-OfQueue,
    (tt, (tt, (omega arith, (tt, (tt, (tt, (tt, (answer-OfQueue, (tt, (tt, (tt, (tt, tt)))))))))))),
  ),
)

run_events-NoTwo_example :
    Distinct (run_events 4 5000 events at_start).running
    × ((id : String)
        → has id (run_events 4 5000 events at_start).in_process
          ≡ has id (run_events 4 5000 events at_start).running)
run_events-NoTwo_example = run_events-NoTwo 4 5000 events events-AllPrompt

outlasted-Forward : Forward 0 outlasted
outlasted-Forward = (
  omega arith,
  (
    omega arith,
    (omega arith, (omega arith, (omega arith, (omega arith, (omega arith, (omega arith, tt)))))),
  ),
)

run_events-IsGuarded_example :
    Spaced 5000 (starts (run_events 4 5000 outlasted at_start))
    × ((run_events 4 5000 outlasted at_start).immediates
        ≡ (if (run_events 4 5000 outlasted at_start).wake_pending then 1 else 0))
    × ((run_events 4 5000 outlasted at_start).sweeps
        ≡ (if (run_events 4 5000 outlasted at_start).recovering then 1 else 0))
run_events-IsGuarded_example =
    run_events-IsGuarded 4 5000 0 outlasted (omega arith) outlasted-Forward
