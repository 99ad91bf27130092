-- ===== src/Solana/Poll.antt =====
-- `getLatestSignature` and `pollIntentSubmitted` of relayer/src/chain/solana/solana.service.ts, on a
-- deployment with Solana. The connection's answers are the outside's; the codecs are parameters.
use mathlib.Core.List.{reverse}
use bosphor.Base.{
  ℕ, String, Bool, Option, none, some, List, [], ◌∷◌, ◌++◌, map, if◌then◌else◌, or_else,
}
use bosphor.Codec.Solana.{SolanaIntentSubmitted, parse_intent_submitted_events}

abbrev pub signature_page_limit : ℕ
signature_page_limit = 100

-- A transaction of the program, as a page lists it.
pub record Signature : Type 0 where
  pub signature : String
  pub failed : Bool

pub record SolanaSubmittedEvent : Type 0 where
  pub event : SolanaIntentSubmitted
  pub signature : String

pub record SolanaSubmitPoll : Type 0 where
  pub events : List SolanaSubmittedEvent
  pub newest_signature : Option String

-- The program's transactions since one, newest first and at most so many; and a transaction's log
-- lines, if it is there and has any. None outside is a failure.
pub record Connection : Type 0 where
  pub signatures : Option String → ℕ → Option (List Signature)
  pub transaction : String → Option (Option (List String))

abbrev first_signature : List Signature → Option String
first_signature [] = none
first_signature (s ∷ sigs) = some s.signature

-- A failure is caught, and leaves the watcher without a cursor.
unfoldable pub get_latest_signature : Connection → Option String
get_latest_signature connection = first_signature (or_else (connection.signatures none 1) [])

module _ (hexlify : List ℕ → String) (base64_bytes : String → List ℕ) where
  unfoldable pub events_in : String → List String → List SolanaSubmittedEvent
  unfolding parse_intent_submitted_events
  events_in signature logs =
      map (λ event. record { event = event; signature = signature })
        (parse_intent_submitted_events hexlify base64_bytes logs)

  -- The loop, over the oldest transaction first; none if a read fails.
  unfoldable pub read_signatures : Connection → List Signature → Option (List SolanaSubmittedEvent)
  unfolding events_in
  read_signatures connection [] = some []
  read_signatures connection (s ∷ sigs) =
      let rest = read_signatures connection sigs in
      if s.failed then rest else elim (connection.transaction s.signature) [
        | none ↦ none
        | some logs ↦ elim rest [
          | none ↦ none
          | some events ↦ some (events_in s.signature (or_else logs []) ++ events)
        ]
      ]

  abbrev unchanged : Option String → SolanaSubmitPoll
  unchanged until = record { events = []; newest_signature = until }

  -- The page was read, and then its transactions.
  unfoldable pub read_page : Connection → Option String → List Signature → SolanaSubmitPoll
  unfolding read_signatures
  read_page connection until [] = unchanged until
  read_page connection until (newest ∷ sigs) =
      elim (read_signatures connection (reverse (newest ∷ sigs))) [
        | none ↦ unchanged until
        | some events ↦ record { events = events; newest_signature = some newest.signature }
      ]

  unfoldable pub poll_intent_submitted : Connection → Option String → SolanaSubmitPoll
  unfolding read_page
  poll_intent_submitted connection until = elim (connection.signatures until signature_page_limit) [
    | none ↦ unchanged until
    | some page ↦ read_page connection until page
  ]
