-- ===== src/Sui/Checkpoint/Delivered.antt =====
-- No event is missed: what the callback has taken against the cursor.
use mathlib.Core.List.{append-nil, append_assoc}
use bosphor.Base.{
  ℕ, String, zero, suc, ◌≡◌, refl, sym, ap, ◌∙◌, Bool-cases, inl, inr, Option, none, some, List, [],
  ◌∷◌, ◌++◌, or_else, length,
}
use bosphor.Base.Result.{Result, ok, err}
use bosphor.Sui.Event.{SuiLzEvent, RawEvent, Transaction, Decoders, read_event}
use bosphor.Sui.Checkpoint.{
  State, Pass, Outcome, and_then, deliver, process_event, process_events, process_transactions,
}

-- What an event contributes.
abbrev pub read_as : Result String (Option SuiLzEvent) → List SuiLzEvent
read_as (err thrown) = []
read_as (ok none) = []
read_as (ok (some event)) = event ∷ []

module _ (decoders : Decoders) (lz_package_id : String) where
  abbrev pub events_of : String → List RawEvent → List SuiLzEvent
  events_of digest [] = []
  events_of digest (raw ∷ events) =
      read_as (read_event decoders lz_package_id digest raw) ++ events_of digest events

  -- The `IntentReceived` events of a checkpoint, in order.
  abbrev pub received_in : List Transaction → List SuiLzEvent
  received_in [] = []
  received_in (tx ∷ transactions) =
      events_of (or_else tx.digest "") (or_else tx.events []) ++ received_in transactions

  -- Those of the `n` checkpoints from `seq` on.
  abbrev pub window : (ℕ → List Transaction) → ℕ → ℕ → List SuiLzEvent
  window chain seq zero = []
  window chain seq (suc n) = received_in (chain seq) ++ window chain (suc seq) n

-- An outcome after which more events are taken, all of the expected ones unless it threw.
pub record Delivers (expected : List SuiLzEvent) (s : State) (o : Outcome) : Type 0 where
  pub extra : List SuiLzEvent
  pub delivered : o.1.delivered ≡ s.delivered ++ extra
  pub cursor : o.1.cursor ≡ s.cursor
  pub rest : (o.1.backoff_ms ≡ s.backoff_ms) × (o.1.slept ≡ s.slept)
  pub full : o.0 ≡ ok tt → extra ≡ expected

Delivers-nothing : (s : State) → Delivers [] s (ok tt, s)
Delivers-nothing s = record {
  extra = [];
  delivered = sym (append-nil s.delivered);
  cursor = refl;
  rest = (refl, refl);
  full = λ e. refl;
}

Delivers-thrown : (xs : List SuiLzEvent) (s : State) → Delivers xs s (err tt, s)
Delivers-thrown xs s = record {
  extra = [];
  delivered = sym (append-nil s.delivered);
  cursor = refl;
  rest = (refl, refl);
  full = λ e. cc e;
}

Delivers-and_then :
    (xs ys : List SuiLzEvent) (s : State) (o : Outcome) (next : State → Outcome)
    → Delivers xs s o
    → ((t : State) → Delivers ys t (next t))
    → Delivers (xs ++ ys) s (and_then o next)
Delivers-and_then xs ys s (err thrown, t) next d n = record {
  extra = d.extra;
  delivered = d.delivered;
  cursor = d.cursor;
  rest = d.rest;
  full = λ e. cc e;
}
Delivers-and_then xs ys s (ok nothing, t) next d n =
    let m = n t in
    record {
      extra = d.extra ++ m.extra;
      delivered =
          m.delivered
          ∙ ap (λ zs. zs ++ m.extra) d.delivered
          ∙ append_assoc s.delivered d.extra m.extra;
      cursor = m.cursor ∙ d.cursor;
      rest = (m.rest.0 ∙ d.rest.0, m.rest.1 ∙ d.rest.1);
      full = λ e. ap (λ zs. zs ++ m.extra) (d.full refl) ∙ ap (◌++◌ xs) (m.full e);
    }

module _ (decoders : Decoders) (lz_package_id : String) (chain : ℕ → List Transaction)
    (pass : Pass) where
  deliver-Delivers :
      (event : SuiLzEvent) (s : State)
      → Delivers (event ∷ []) s (deliver decoders lz_package_id chain pass event s)
  unfolding deliver
  deliver-Delivers event s = elim (Bool-cases (pass.takes (length s.delivered))) [
    | inl takes ↦ rw (takes) (record {
      extra = event ∷ [];
      delivered = refl;
      cursor = refl;
      rest = (refl, refl);
      full = λ e. refl;
    })
    | inr refuses ↦ rw (refuses) (Delivers-thrown (event ∷ []) s)
  ]

  process_event-Delivers :
      (read : Result String (Option SuiLzEvent)) (s : State)
      → Delivers (read_as read) s (process_event decoders lz_package_id chain pass read s)
  unfolding process_event
  process_event-Delivers (err thrown) s = Delivers-thrown [] s
  process_event-Delivers (ok none) s = Delivers-nothing s
  process_event-Delivers (ok (some event)) s = deliver-Delivers event s

  process_events-Delivers :
      (digest : String) (events : List RawEvent) (s : State)
      → Delivers
          (events_of decoders lz_package_id digest events)
          s
          (process_events decoders lz_package_id chain pass digest events s)
  unfolding process_events
  process_events-Delivers digest [] s = Delivers-nothing s
  process_events-Delivers digest (raw ∷ events) s =
      Delivers-and_then (read_as (read_event decoders lz_package_id digest raw))
        (events_of decoders lz_package_id digest events) s
        (process_event decoders lz_package_id chain pass
          (read_event decoders lz_package_id digest raw) s)
        (λ t. process_events decoders lz_package_id chain pass digest events t)
        (process_event-Delivers (read_event decoders lz_package_id digest raw) s)
        (λ t. process_events-Delivers digest events t)

  pub process_transactions-Delivers :
      (transactions : List Transaction) (s : State)
      → Delivers
          (received_in decoders lz_package_id transactions)
          s
          (process_transactions decoders lz_package_id chain pass transactions s)
  unfolding process_transactions
  process_transactions-Delivers [] s = Delivers-nothing s
  process_transactions-Delivers (tx ∷ transactions) s =
      Delivers-and_then
        (events_of decoders lz_package_id (or_else tx.digest "") (or_else tx.events []))
        (received_in decoders lz_package_id transactions) s
        (process_events decoders lz_package_id chain pass (or_else tx.digest "")
          (or_else tx.events []) s)
        (λ t. process_transactions decoders lz_package_id chain pass transactions t)
        (process_events-Delivers (or_else tx.digest "") (or_else tx.events []) s)
        (λ t. process_transactions-Delivers transactions t)
