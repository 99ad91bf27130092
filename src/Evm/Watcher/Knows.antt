-- ===== src/Evm/Watcher/Knows.antt =====
-- The feed, from which the ingest takes commitments, knows each intent behind the watcher's cursor.
use mathlib.Core.Path.{subst}
use bosphor.Base.{
  ℕ, zero, suc, ◌+◌, ◌-◌, ◌≤◌, Bool, true, false, Option, none, some, List, [], ◌∷◌, ◌++◌, map, ◌≡◌,
  refl, sym, ap, ◌∙◌, inl, inr, Bool-cases, if◌then◌else◌, All, or_else, All-select, String, arith,
}
use bosphor.Lifecycle.{IntentHop}
use bosphor.Lifecycle.Track.{HopCall, Feed}
use bosphor.Lifecycle.Track.Knows.{Committed, Brings, Knows, Informed}
use bosphor.Evm.Poll.{
  SubmittedArgs, Log, SubmittedEvent, submitted_events, bootstrap_block_number, both_logs,
  poll_below, poll_lifecycle_events, evm_head_lag, Probe,
}
use bosphor.Evm.Watcher.{
  Watcher, Answers, Event, tick, ends, submitted_call, take_events, poll_once, scheduled_poll,
  settle, step, run, on_module_init, start_at,
}
use bosphor.Evm.Watcher.Calls.{Chain, IsOf, span, calls_for}
use bosphor.Evm.Watcher.Exact.{Honest, AtMostOne, Watching, run-Watching, begun-Watching}
use bosphor.Evm.Watcher.Told.{
  Serving, EventServing, OfContract, Told, submitted_events-Told, span-Matches, answered-Informed,
}

module _ (committed : String → Committed) (chain : Chain)
    (of_contract : OfContract committed chain) where
  settle-Informed :
      (answers : Answers) (passed in_flight : List ℕ) (i : ℕ) (w : Watcher)
      → IsOf chain answers.rpc
      → Serving answers
      → Informed committed w.feed
      → Informed committed (settle answers passed in_flight i w).feed
  unfolding settle poll_once poll_lifecycle_events
  settle-Informed answers passed [] i w honest served h = h
  settle-Informed answers passed (from_block ∷ others) zero w honest served h =
      answered-Informed committed chain of_contract answers from_block answers.rpc.block_number w
        honest served h
  settle-Informed answers passed (from_block ∷ others) (suc i) w honest served h =
      settle-Informed answers (passed ++ (from_block ∷ [])) others i w honest served h

  tick-Informed :
      (w : Watcher) → Informed committed w.feed → Informed committed (scheduled_poll w).feed
  unfolding scheduled_poll
  tick-Informed w h = elim (Bool-cases w.polling) [
    | inl busy ↦ subst (λ b. Informed committed (if b then w else started).feed) (sym busy) h
    | inr idle ↦ subst (λ b. Informed committed (if b then w else started).feed) (sym idle) h
  ]
    where
      started : Watcher
      started = record w { polling = true; in_flight = w.in_flight ++ (w.cursor ∷ []) }

  run-Informed :
      (events : List Event) (w : Watcher)
      → All (Honest chain) events
      → All EventServing events
      → Informed committed w.feed
      → Informed committed (run events w).feed
  unfolding run step
  run-Informed [] w honest served h = h
  run-Informed (tick ∷ events) w (_, honest) (_, served) h =
      run-Informed events (scheduled_poll w) honest served (tick-Informed w h)
  run-Informed (ends i answers ∷ events) w (of_chain, honest) (serving, served) h =
      run-Informed events (settle answers [] w.in_flight i w) honest served
        (settle-Informed answers [] w.in_flight i w of_chain serving h)

  -- What the reports of submissions were, the feed knows.
  known_of_reported :
      (start count : ℕ) (f : Feed)
      → calls_for IntentHop.submitted f.tried
        ≡ map submitted_call (submitted_events (span chain.submitted_at start count))
      → Informed committed f
      → All
          (λ e. Knows committed f.records e.intent_id)
          (submitted_events (span chain.submitted_at start count))
  known_of_reported start count f reported h =
      let told =
        λ (call : HopCall). Brings committed call → Knows committed f.records call.intent_id in
      let events = submitted_events (span chain.submitted_at start count) in
      let all_told : All told (map submitted_call events) =
        subst (All told) reported (All-select _ f.tried h (λ call same t. t)) in
      All-unmap events all_told
        (submitted_events-Told committed _ (span-Matches committed chain of_contract count start))
    where
      All-unmap :
          (events : List SubmittedEvent)
          → All
              (λ call. Brings committed call → Knows committed f.records call.intent_id)
              (map submitted_call events)
          → All (Told committed) events
          → All (λ e. Knows committed f.records e.intent_id) events
      All-unmap [] known brings = tt
      All-unmap (e ∷ es) (k, known) (b, brings) = (k b, All-unmap es known brings)

idle_none :
    (polling : Bool) (in_flight : List ℕ) (cursor : ℕ)
    → polling ≡ false
    → AtMostOne polling in_flight cursor
    → in_flight ≡ []
idle_none true in_flight cursor idle h = cc
idle_none false [] cursor idle h = refl
idle_none false (c ∷ cs) cursor idle h = absurd h

-- A poll that is answered brings the cursor to the block behind the last that is old enough.
cursor-caught :
    (w : Watcher) (answers : Answers) (head : ℕ) (subs : List (Log SubmittedArgs))
    (execs : List (Log String))
    → w.polling ≡ false
    → w.in_flight ≡ []
    → answers.rpc.block_number ≡ some head
    → answers.rpc.submitted_logs w.cursor (head - evm_head_lag) ≡ some subs
    → answers.rpc.executed_logs w.cursor (head - evm_head_lag) ≡ some execs
    → w.cursor + evm_head_lag ≤ head
    → (step (ends 0 answers) (step tick w)).cursor + 2 ≡ head
unfolding step scheduled_poll settle poll_once poll_lifecycle_events take_events poll_below
    both_logs
cursor-caught w answers head subs execs idle alone read s e ahead = ground arith

begun_fresh :
    (head : Option ℕ) (feed : Feed) (w : Watcher)
    → feed.tried ≡ []
    → start_at head feed ≡ some w
    → w.feed.tried ≡ []
unfolding start_at
begun_fresh none feed w fresh begun = cc
begun_fresh (some head) feed w fresh begun = ap (λ o. (or_else o w).feed.tried) (sym begun) ∙ fresh

-- However ticks and ends of polls followed the start: when no poll is under way, a tick whose poll is
-- answered brings the cursor to two blocks behind the head, if it is further behind; and if the
-- answers are the chain's, the logs are what the contract has on record, and the feed's store served
-- every call, then the feed has the recorded blob id, size and deadline of every intent that was
-- submitted from the first block up to the cursor.
pub run-Knows :
    (committed : String → Committed) (chain : Chain) (probes : ℕ → Probe) (feed : Feed)
    (w : Watcher) (events : List Event) (answers : Answers) (head : ℕ)
    (subs : List (Log SubmittedArgs)) (execs : List (Log String))
    → OfContract committed chain
    → feed.tried ≡ []
    → on_module_init probes feed ≡ some w
    → All (Honest chain) events
    → All EventServing events
    → IsOf chain answers.rpc
    → Serving answers
    → (run events w).polling ≡ false
    → answers.rpc.block_number ≡ some head
    → answers.rpc.submitted_logs (run events w).cursor (head - evm_head_lag) ≡ some subs
    → answers.rpc.executed_logs (run events w).cursor (head - evm_head_lag) ≡ some execs
    → (run events w).cursor + evm_head_lag ≤ head
    → let after = step (ends 0 answers) (step tick (run events w)) in
      (after.cursor + 2 ≡ head)
      × All
          (λ e. Knows committed after.feed.records e.intent_id)
          (submitted_events (span chain.submitted_at w.cursor (after.cursor - w.cursor)))
unfolding on_module_init
run-Knows committed chain probes feed w events answers head subs execs of_contract fresh begun
      honest served of_chain serving idle read s e ahead =
    let v = run events w in
    let before =
      run-Watching chain w.cursor events w honest
        (begun-Watching chain (bootstrap_block_number probes).0 feed w fresh begun) in
    let last : List Event = tick ∷ ends 0 answers ∷ [] in
    let after : Watching chain w.cursor (step (ends 0 answers) (step tick v)) =
      unfold run in run-Watching chain w.cursor last v (tt, (of_chain, tt)) before in
    let uninformed : Informed committed w.feed =
      subst (All (λ call. Brings committed call → Knows committed w.feed.records call.intent_id))
        (sym (begun_fresh (bootstrap_block_number probes).0 feed w fresh begun)) tt in
    let informed : Informed committed (step (ends 0 answers) (step tick v)).feed =
      unfold run in
      run-Informed committed chain of_contract last v (tt, (of_chain, tt)) (tt, (serving, tt))
        (run-Informed committed chain of_contract events w honest served uninformed) in
    (
      cursor-caught v answers head subs execs idle
          (idle_none v.polling v.in_flight v.cursor idle before.alone) read s e ahead,
      known_of_reported committed chain of_contract w.cursor _ _ after.watched.submitted informed,
    )
