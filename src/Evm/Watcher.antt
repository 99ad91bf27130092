-- ===== src/Evm/Watcher.antt =====
-- `EvmLifecycleWatcher` of relayer/src/chain/evm/evm-lifecycle.watcher.ts. A poll reads the cursor when it
-- starts and takes effect when it ends; ticks of the interval may come in between.
pub mod Calls
pub mod Advance
pub mod Exact
pub mod Told
pub mod Knows
pub mod Tests
use bosphor.Base.{
  ℕ, zero, suc, ◌+◌, Bool, true, false, Option, none, some, List, [], ◌∷◌, ◌++◌, map, if◌then◌else◌,
}
use bosphor.Lifecycle.{IntentHop, HopDetails, no_details}
use bosphor.Lifecycle.Track.{HopCall, Feed, track_all}
use bosphor.Evm.Poll.{
  SubmittedEvent, ExecutedEvent, EvmLifecycleEvents, Rpc, Probe, poll_lifecycle_events,
  bootstrap_block_number,
}

-- `in_flight` has the cursor that each unfinished poll has read.
pub record Watcher : Type 0 where
  pub cursor : ℕ
  pub polling : Bool
  pub in_flight : List ℕ
  pub feed : Feed

abbrev submitted_details : SubmittedEvent → HopDetails
submitted_details e = record no_details {
  sender = some e.sender;
  tx_hash = some e.tx_hash;
  committed_blob_id = some e.blob_id;
  size = some e.size;
  deadline = some e.deadline_ms;
}

abbrev pub submitted_call : SubmittedEvent → HopCall
submitted_call e = record {
  intent_id = e.intent_id;
  hop = IntentHop.submitted;
  details = submitted_details e;
}

abbrev pub confirmed_call : ExecutedEvent → HopCall
confirmed_call e = record {
  intent_id = e.intent_id;
  hop = IntentHop.confirmed;
  details = record no_details { tx_hash = some e.tx_hash };
}

-- What the outside answers a poll: the provider, and the feed's store to each `recordHop`.
pub record Answers : Type 0 where
  pub rpc : Rpc
  pub serves : ℕ → Option ℕ

unfoldable pub take_events : (ℕ → Option ℕ) → Option EvmLifecycleEvents → Watcher → Watcher
take_events serves none w = w
take_events serves (some events) w = record w {
  cursor = events.new_from_block;
  feed =
      track_all serves (map confirmed_call events.executed)
        (track_all serves (map submitted_call events.submitted) w.feed);
}

-- `pollOnce`, with the cursor as it was when the poll started.
unfoldable pub poll_once : Answers → ℕ → Watcher → Watcher
unfolding take_events
poll_once answers from_block w =
    take_events answers.serves (poll_lifecycle_events answers.rpc from_block) w

unfoldable pub scheduled_poll : Watcher → Watcher
scheduled_poll w =
    if w.polling then w else record w { polling = true; in_flight = w.in_flight ++ (w.cursor ∷ []) }

-- The poll in flight at a place in the list ends.
unfoldable pub settle : Answers → List ℕ → List ℕ → ℕ → Watcher → Watcher
unfolding poll_once
settle answers passed [] i w = w
settle answers passed (from_block ∷ others) zero w = record (poll_once answers from_block w) {
  polling = false;
  in_flight = passed ++ others;
}
settle answers passed (from_block ∷ others) (suc i) w =
    settle answers (passed ++ (from_block ∷ [])) others i w

pub data Event : Type 0 where
  tick : Event
  ends : ℕ → Answers → Event

unfoldable pub step : Event → Watcher → Watcher
unfolding scheduled_poll settle
step tick w = scheduled_poll w
step (ends i answers) w = settle answers [] w.in_flight i w

unfoldable pub run : List Event → Watcher → Watcher
unfolding step
run [] w = w
run (event ∷ events) w = run events (step event w)

-- `onModuleInit`, which throws if the probe does.
unfoldable pub start_at : Option ℕ → Feed → Option Watcher
start_at none feed = none
start_at (some head) feed =
    some (record { cursor = head; polling = false; in_flight = []; feed = feed })

unfoldable pub on_module_init : (ℕ → Probe) → Feed → Option Watcher
unfolding start_at
on_module_init probes feed = start_at (bootstrap_block_number probes).0 feed
