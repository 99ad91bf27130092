-- ===== src/Evm/Watcher/Advance.antt =====
-- One poll of the watcher makes the calls for the blocks that it reads.
use mathlib.Core.List.{append-nil}
use mathlib.Core.Option as Option
use bosphor.Base.{
  ℕ, String, suc, ◌+◌, ◌-◌, ◌≤◌, Option, none, some, List, [], ◌++◌, map, ◌≡◌, refl, sym, ap, ◌∙◌,
  inl, inr, Bool-cases, ltb, arith,
}
use bosphor.Lifecycle.{IntentHop}
use bosphor.Lifecycle.Track.{track_all, tried-track_all}
use bosphor.Evm.Poll.{
  SubmittedArgs, Log, EvmLifecycleEvents, Rpc, submitted_events, executed_events, both_logs,
  poll_below, evm_head_lag,
}
use bosphor.Evm.Watcher.{Watcher, submitted_call, confirmed_call, take_events}
use bosphor.Evm.Watcher.Calls.{
  span, Chain, IsOf, calls_for, calls_for-append, submitted-calls_for, confirmed-calls_for,
  read_logs-append, calls_on,
}

-- The calls for the blocks from the first one up to the cursor are made, each once and in order.
pub record Watched (chain : Chain) (start : ℕ) (w : Watcher) : Type 0 where
  pub reached : start ≤ w.cursor
  pub submitted :
      calls_for IntentHop.submitted w.feed.tried
      ≡ map submitted_call (submitted_events (span chain.submitted_at start (w.cursor - start)))
  pub confirmed :
      calls_for IntentHop.confirmed w.feed.tried
      ≡ map confirmed_call (executed_events (span chain.executed_at start (w.cursor - start)))

module _ (chain : Chain) (start : ℕ) (serves : ℕ → Option ℕ) (w : Watcher) where
  take_nothing-Watched :
      Watched chain start w
      → Watched chain start (
          take_events serves
            (some (record { submitted = []; executed = []; new_from_block = w.cursor }))
            w)
  unfolding take_events track_all
  take_nothing-Watched h = record {
    reached = h.reached;
    submitted = h.submitted;
    confirmed = h.confirmed;
  }

  -- The poll's calls come after the others.
  tried-take_events :
      (events : EvmLifecycleEvents)
      → (take_events serves (some events) w).feed.tried
        ≡ (w.feed.tried ++ map submitted_call events.submitted)
          ++ map confirmed_call events.executed
  unfolding take_events
  tried-take_events events =
      tried-track_all serves (map confirmed_call events.executed)
        (track_all serves (map submitted_call events.submitted) w.feed)
      ∙ ap (λ tried. tried ++ map confirmed_call events.executed)
          (tried-track_all serves (map submitted_call events.submitted) w.feed)

  calls_for-take_events :
      (events : EvmLifecycleEvents)
      → (calls_for IntentHop.submitted (take_events serves (some events) w).feed.tried
          ≡ calls_for IntentHop.submitted w.feed.tried ++ map submitted_call events.submitted)
        × (calls_for IntentHop.confirmed (take_events serves (some events) w).feed.tried
            ≡ calls_for IntentHop.confirmed w.feed.tried ++ map confirmed_call events.executed)
  calls_for-take_events events =
      let old = w.feed.tried in
      let subs = map submitted_call events.submitted in
      let confs = map confirmed_call events.executed in
      let (s_mine, s_other) = submitted-calls_for events.submitted in
      let (c_mine, c_other) = confirmed-calls_for events.executed in
      let split = λ (hop : IntentHop).
        ap (calls_for hop) (tried-take_events events)
        ∙ calls_for-append hop (old ++ subs) confs
        ∙ ap (λ xs. xs ++ calls_for hop confs) (calls_for-append hop old subs) in
      (
        split IntentHop.submitted
            ∙ cc (s_mine, c_other, append-nil (calls_for IntentHop.submitted old ++ subs)),
        split IntentHop.confirmed
            ∙ cc (c_mine, s_other, append-nil (calls_for IntentHop.confirmed old)),
      )

  advance-Watched :
      (latest : ℕ) (subs : List (Log SubmittedArgs)) (execs : List (Log String))
      → w.cursor ≤ latest
      → subs ≡ span chain.submitted_at w.cursor (suc latest - w.cursor)
      → execs ≡ span chain.executed_at w.cursor (suc latest - w.cursor)
      → Watched chain start w
      → Watched chain start
          (take_events serves (some (both_logs (some subs) (some execs) w.cursor latest)) w)
  unfolding take_events both_logs
  advance-Watched latest subs execs ahead s e h =
      let c = w.cursor in
      let events = both_logs (some subs) (some execs) c latest in
      let (subs_made, execs_made) = calls_for-take_events events in
      let next : latest + 1 ≡ suc latest = omega arith in
      let old_subs =
        map submitted_call (submitted_events (span chain.submitted_at start (c - start))) in
      let old_execs =
        map confirmed_call (executed_events (span chain.executed_at start (c - start))) in
      record {
        reached = omega (arith, h.reached);
        submitted =
            subs_made
            ∙ ap (λ xs. xs ++ map submitted_call (submitted_events subs)) h.submitted
            ∙ ap (λ logs. old_subs ++ map submitted_call (submitted_events logs)) s
            ∙ sym (
                calls_on submitted_events submitted_call chain.submitted_at start c (suc latest)
                  (read_logs-append _) h.reached (omega arith))
            ∙ ap
                (λ k.
                  map submitted_call (submitted_events (span chain.submitted_at start (k - start))))
                (sym next);
        confirmed =
            execs_made
            ∙ ap (λ xs. xs ++ map confirmed_call (executed_events execs)) h.confirmed
            ∙ ap (λ logs. old_execs ++ map confirmed_call (executed_events logs)) e
            ∙ sym (
                calls_on executed_events confirmed_call chain.executed_at start c (suc latest)
                  (read_logs-append _) h.reached (omega arith))
            ∙ ap
                (λ k.
                  map confirmed_call (executed_events (span chain.executed_at start (k - start))))
                (sym next);
      }

  both_logs-Watched :
      (latest : ℕ) (subs : Option (List (Log SubmittedArgs))) (execs : Option (List (Log String)))
      → w.cursor ≤ latest
      → ((logs : List (Log SubmittedArgs))
          → subs ≡ some logs
          → logs ≡ span chain.submitted_at w.cursor (suc latest - w.cursor))
      → ((logs : List (Log String))
          → execs ≡ some logs
          → logs ≡ span chain.executed_at w.cursor (suc latest - w.cursor))
      → Watched chain start w
      → Watched chain start (take_events serves (some (both_logs subs execs w.cursor latest)) w)
  unfolding both_logs
  both_logs-Watched latest none execs ahead s e h = take_nothing-Watched h
  both_logs-Watched latest (some subs) none ahead s e h = take_nothing-Watched h
  both_logs-Watched latest (some subs) (some execs) ahead s e h =
      advance-Watched latest subs execs ahead (s subs refl) (e execs refl) h

  below-Watched :
      (rpc : Rpc) (head : ℕ)
      → IsOf chain rpc
      → Watched chain start w
      → Watched chain start (take_events serves (some (poll_below rpc w.cursor head)) w)
  unfolding poll_below
  below-Watched rpc head honest h = elim (Bool-cases (ltb head (w.cursor + evm_head_lag))) [
    | inl behind ↦ rw behind (take_nothing-Watched h)
    | inr ahead ↦ rw ahead (
        both_logs-Watched (head - evm_head_lag) (rpc.submitted_logs w.cursor (head - evm_head_lag))
          (rpc.executed_logs w.cursor (head - evm_head_lag)) (ground arith)
          (honest.submitted w.cursor (head - evm_head_lag))
          (honest.executed w.cursor (head - evm_head_lag)) h)
  ]

  pub answered-Watched :
      (rpc : Rpc) (block_number : Option ℕ)
      → IsOf chain rpc
      → Watched chain start w
      → Watched chain start
          (take_events serves (Option.map (λ head. poll_below rpc w.cursor head) block_number) w)
  unfolding take_events
  answered-Watched rpc none honest h = h
  answered-Watched rpc (some head) honest h = below-Watched rpc head honest h
