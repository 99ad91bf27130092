-- ===== src/Evm/Watcher/Exact.antt =====
-- Each log behind the cursor is reported exactly once, in the chain's order.
use mathlib.Core.Path.{subst}
use bosphor.Base.{
  ℕ, zero, suc, ◌-◌, Bool, true, false, Option, none, some, List, [], ◌∷◌, ◌++◌, map, ◌≡◌, refl,
  sym, ap, ◌∙◌, inl, inr, Bool-cases, if◌then◌else◌, or_else, All, arith,
}
use bosphor.Lifecycle.{IntentHop}
use bosphor.Lifecycle.Track.{Feed}
use bosphor.Evm.Poll.{
  read_logs, submitted_events, executed_events, poll_lifecycle_events, Probe,
  bootstrap_block_number,
}
use bosphor.Evm.Watcher.{
  Watcher, Answers, Event, tick, ends, submitted_call, confirmed_call, take_events, poll_once,
  scheduled_poll, settle, step, run, start_at, on_module_init,
}
use bosphor.Evm.Watcher.Calls.{span, Chain, IsOf, calls_for}
use bosphor.Evm.Watcher.Advance.{Watched, answered-Watched}

abbrev pub Honest : Chain → Event → Type 0
Honest chain tick = Unit
Honest chain (ends i answers) = IsOf chain answers.rpc

-- A poll in flight has read the cursor as it is, and there is at most one.
abbrev pub AtMostOne : Bool → List ℕ → ℕ → Type 0
AtMostOne false [] cursor = Unit
AtMostOne false (from_block ∷ others) cursor = ⊥
AtMostOne true [] cursor = ⊥
AtMostOne true (from_block ∷ []) cursor = from_block ≡ cursor
AtMostOne true (from_block ∷ other ∷ others) cursor = ⊥

pub record Watching (chain : Chain) (start : ℕ) (w : Watcher) : Type 0 where
  pub watched : Watched chain start w
  pub alone : AtMostOne w.polling w.in_flight w.cursor

started-alone :
    (polling : Bool) (in_flight : List ℕ) (cursor : ℕ)
    → polling ≡ false
    → AtMostOne polling in_flight cursor
    → AtMostOne true (in_flight ++ (cursor ∷ [])) cursor
started-alone false [] cursor idle h = refl
started-alone false (from_block ∷ others) cursor idle h = absurd h
started-alone true in_flight cursor idle h = cc

module _ (chain : Chain) (start : ℕ) where
  tick-Watching : (w : Watcher) → Watching chain start w → Watching chain start (scheduled_poll w)
  unfolding scheduled_poll
  tick-Watching w h =
      let started = record w { polling = true; in_flight = w.in_flight ++ (w.cursor ∷ []) } in
      elim (Bool-cases w.polling) [
        | inl busy ↦ subst (λ b. Watching chain start (if b then w else started)) (sym busy) h
        | inr idle ↦
            subst (λ b. Watching chain start (if b then w else started)) (sym idle)
              (record {
                watched = record {
                  reached = h.watched.reached;
                  submitted = h.watched.submitted;
                  confirmed = h.watched.confirmed;
                };
                alone = started-alone w.polling w.in_flight w.cursor idle h.alone;
              })
      ]

  settle-Watching :
      (answers : Answers) (polling : Bool) (in_flight : List ℕ) (i : ℕ) (w : Watcher)
      → IsOf chain answers.rpc
      → AtMostOne polling in_flight w.cursor
      → Watching chain start w
      → Watching chain start (settle answers [] in_flight i w)
  unfolding settle poll_once poll_lifecycle_events
  settle-Watching answers polling [] i w honest alone h = h
  settle-Watching answers false (from_block ∷ others) i w honest alone h = absurd alone
  settle-Watching answers true (from_block ∷ other ∷ others) i w honest alone h = absurd alone
  settle-Watching answers true (from_block ∷ []) (suc i) w honest alone h = h
  settle-Watching answers true (from_block ∷ []) zero w honest alone h =
      let after : Watched chain start
          (take_events answers.serves (poll_lifecycle_events answers.rpc from_block) w) =
        subst
          (λ c.
            Watched chain start
              (take_events answers.serves (poll_lifecycle_events answers.rpc c) w))
          (sym alone)
          (answered-Watched chain start answers.serves w answers.rpc answers.rpc.block_number honest
            h.watched) in
      record {
        watched = record {
          reached = after.reached;
          submitted = after.submitted;
          confirmed = after.confirmed;
        };
        alone = tt;
      }

  pub run-Watching :
      (events : List Event) (w : Watcher)
      → All (Honest chain) events
      → Watching chain start w
      → Watching chain start (run events w)
  unfolding run step
  run-Watching [] w honest h = h
  run-Watching (tick ∷ events) w (_, honest) h =
      run-Watching events (scheduled_poll w) honest (tick-Watching w h)
  run-Watching (ends i answers ∷ events) w (of_chain, honest) h =
      run-Watching events (settle answers [] w.in_flight i w) honest
        (settle-Watching answers w.polling w.in_flight i w of_chain h.alone h)

pub begun-Watching :
    (chain : Chain) (head : Option ℕ) (feed : Feed) (w : Watcher)
    → feed.tried ≡ []
    → start_at head feed ≡ some w
    → Watching chain w.cursor w
unfolding start_at submitted_events executed_events read_logs
begun-Watching chain none feed w fresh begun = cc
begun-Watching chain (some head) feed w fresh begun =
    let at_start : Watcher = record {
      cursor = head;
      polling = false;
      in_flight = [];
      feed = feed;
    } in
    let same : at_start ≡ w = ap (λ o. or_else o w) begun in
    let none_yet : head - head ≡ 0 = omega arith in
    let none_made : calls_for IntentHop.submitted feed.tried ≡ [] = ap (calls_for _) fresh in
    let none_confirmed : calls_for IntentHop.confirmed feed.tried ≡ [] = ap (calls_for _) fresh in
    subst (λ v. Watching chain v.cursor v) same
      (record {
        watched = record {
          reached = omega arith;
          submitted =
              none_made
              ∙ ap (λ n. map submitted_call (submitted_events (span chain.submitted_at head n)))
                  (sym none_yet);
          confirmed =
              none_confirmed
              ∙ ap (λ n. map confirmed_call (executed_events (span chain.executed_at head n)))
                  (sym none_yet);
        };
        alone = tt;
      })

-- However ticks and ends of polls follow the start, and whatever fails: if queries that are answered
-- give the chain's logs, then exactly the submissions and executions of the blocks from the first one
-- up to the cursor are reported, each once and in the chain's order.
pub run-Watched :
    (chain : Chain) (probes : ℕ → Probe) (feed : Feed) (w : Watcher) (events : List Event)
    → feed.tried ≡ []
    → on_module_init probes feed ≡ some w
    → All (Honest chain) events
    → Watched chain w.cursor (run events w)
unfolding on_module_init
run-Watched chain probes feed w events fresh begun honest =
    (run-Watching chain w.cursor events w honest
      (begun-Watching chain (bootstrap_block_number probes).0 feed w fresh begun)).watched
