-- ===== src/Solana/Watcher.antt =====
-- `SolanaLifecycleWatcher` of relayer/src/chain/solana/solana-lifecycle.watcher.ts. Polls do not overlap,
-- as its flag sees to; `recipient` is the Sui address that the blobs go to.
pub mod History
pub mod Page
pub mod Paged
use bosphor.Base.{ℕ, String, ◌*◌, Option, none, some, List, [], ◌∷◌, map}
use bosphor.Lifecycle.{IntentHop, no_details}
use bosphor.Lifecycle.Track.{HopCall, Feed, track_all}
use bosphor.Solana.Poll.{
  SolanaSubmittedEvent, SolanaSubmitPoll, Connection, get_latest_signature, poll_intent_submitted,
}

pub record Watcher : Type 0 where
  pub cursor : Option String
  pub feed : Feed

-- The deadline is in seconds on chain, and below 2^53 / 1000 here, so that no rounding is modelled.
abbrev pub submitted_call : String → SolanaSubmittedEvent → HopCall
submitted_call recipient e = record {
  intent_id = e.event.intent_id;
  hop = IntentHop.submitted;
  details = record no_details {
    sender = some recipient;
    tx_hash = some e.signature;
    committed_blob_id = some e.event.committed_blob_id;
    size = some e.event.size;
    deadline = some (e.event.deadline * 1000);
  };
}

-- What the outside answers a poll.
pub record Answers : Type 0 where
  pub connection : Connection
  pub serves : ℕ → Option ℕ

unfoldable pub take_poll : String → (ℕ → Option ℕ) → SolanaSubmitPoll → Watcher → Watcher
unfolding track_all
take_poll recipient serves polled w = record {
  cursor = polled.newest_signature;
  feed = track_all serves (map (submitted_call recipient) polled.events) w.feed;
}

module _ (hexlify : List ℕ → String) (base64_bytes : String → List ℕ) (recipient : String) where
  unfoldable pub poll_once : Answers → Watcher → Watcher
  unfolding poll_intent_submitted take_poll
  poll_once answers w =
      take_poll recipient answers.serves
        (poll_intent_submitted hexlify base64_bytes answers.connection w.cursor) w

  unfoldable pub run : List Answers → Watcher → Watcher
  unfolding poll_once
  run [] w = w
  run (answers ∷ polls) w = run polls (poll_once answers w)

unfoldable pub on_module_init : Connection → Feed → Watcher
unfolding get_latest_signature
on_module_init connection feed = record { cursor = get_latest_signature connection; feed = feed }
