-- ===== src/Evm/Watcher/Tests.antt =====
-- A chain with one intent, submitted in block 12 and executed in block 13.
use bosphor.Base.{
  ℕ, String, ◌+◌, ◌-◌, ◌≡◌, refl, sym, ap, none, some, List, [], ◌∷◌, All, suc, false,
  if◌then◌else◌, ◌==◌, or_else, inl, inr, Bool-cases, arith,
}
use bosphor.Lifecycle.Track.{Feed}
use bosphor.Lifecycle.Track.Knows.{Committed, Knows}
use bosphor.Evm.Poll.{
  SubmittedArgs, Log, Probe, submitted_events, bootstrap_block_number, poll_lifecycle_events,
}
use bosphor.Evm.Watcher.{Watcher, Answers, Event, tick, ends, step, run, on_module_init}
use bosphor.Evm.Watcher.Calls.{Chain, IsOf, span}
use bosphor.Evm.Watcher.Advance.{Watched}
use bosphor.Evm.Watcher.Exact.{run-Watched}
use bosphor.Evm.Watcher.Told.{OfContract}
use bosphor.Evm.Watcher.Knows.{run-Knows}

abbrev log : Log SubmittedArgs
log = record {
  args =
      some (record { intent_id = "i1"; sender = "0xs"; blob_id = "0xb"; size = 5; deadline = 9 });
  transaction_hash = "0xt";
}

abbrev executed_log : Log String
executed_log = record { args = some "i1"; transaction_hash = "0xu" }

abbrev chain : Chain
chain = record {
  submitted_at = λ block. if block == 12 then log ∷ [] else [];
  executed_at = λ block. if block == 13 then executed_log ∷ [] else [];
}

abbrev answers : ℕ → Answers
answers head = record {
  rpc = record {
    block_number = some head;
    submitted_logs = λ from_block to_block.
        some (span chain.submitted_at from_block (suc to_block - from_block));
    executed_logs =
        λ from_block to_block. some (span chain.executed_at from_block (suc to_block - from_block));
  };
  serves = λ n. some 100;
}

answers-IsOf : (head : ℕ) → IsOf chain (answers head).rpc
answers-IsOf head = record {
  submitted = λ from_block to_block logs e. ap (λ o. or_else o []) (sym e);
  executed = λ from_block to_block logs e. ap (λ o. or_else o []) (sym e);
}

abbrev probes : ℕ → Probe
probes n = if n == 1 then Probe.transient else Probe.head 12

retried : bootstrap_block_number probes ≡ (some 12, 1000 ∷ [])
unfolding bootstrap_block_number
retried = refl

given_up :
    bootstrap_block_number (λ n. Probe.transient)
    ≡ (none, 1000 ∷ 2000 ∷ 4000 ∷ 8000 ∷ 16000 ∷ 30000 ∷ 30000 ∷ [])
unfolding bootstrap_block_number
given_up = refl

abbrev feed : Feed
feed = record { records = []; tried = [] }

abbrev start : Watcher
start = record { cursor = 12; polling = false; in_flight = []; feed = feed }

begun : on_module_init probes feed ≡ some start
unfolding on_module_init bootstrap_block_number
begun = refl

-- The second tick finds the first one's poll under way; that one ends too early for block 12.
abbrev events : List Event
events = tick ∷ tick ∷ ends 0 (answers 14) ∷ tick ∷ ends 0 (answers 15) ∷ []

run-Watched_example : Watched chain 12 (run events start)
run-Watched_example =
    run-Watched chain probes feed start events refl begun
      (tt, (tt, (answers-IsOf 14, (tt, (answers-IsOf 15, tt)))))

abbrev committed : String → Committed
committed id = record { blob_id = "0xb"; size = 5; deadline = 9000 }

on_record : OfContract committed chain
on_record block = elim (Bool-cases (block == 12)) [
  | inl here ↦ rw here (refl, tt)
  | inr elsewhere ↦ rw elsewhere tt
]

run-Knows_example :
    let after = step (ends 0 (answers 17)) (step tick (run events start)) in
    (after.cursor + 2 ≡ 17)
    × All
        (λ e. Knows committed after.feed.records e.intent_id)
        (submitted_events (span chain.submitted_at 12 (after.cursor - 12)))
unfolding run step poll_lifecycle_events
run-Knows_example =
    run-Knows committed chain probes feed start events (answers 17) 17 _ _ on_record refl begun
      (tt, (tt, (answers-IsOf 14, (tt, (answers-IsOf 15, tt)))))
      (tt, (tt, ((λ n. (100, refl)), (tt, ((λ n. (100, refl)), tt))))) (answers-IsOf 17)
      (λ n. (100, refl)) refl refl refl refl (omega arith)
