-- ===== src/Processor/Engine.antt =====
-- What keeps ticks, wakes, sweeps and stores of relayer/src/intent/intent.processor.ts apart: `tick`
-- with its slot and watchdog, `scheduleWake`, the guard of `recoverMissingBytes`, and `inProcess` of
-- `runStore`, as steps between which others may come. There are a queue and an ingest; the work of a
-- store and the statements of a sweep are in the other files of Processor.
pub mod Sets
pub mod Rows
pub mod Acts
pub mod Guards
pub mod OneTick
pub mod Exclusive
pub mod Tests
use bosphor.Base.{
  ℕ, zero, suc, String, Bool, ◌+◌, Option, none, some, List, [], ◌∷◌, ◌++◌, map, true, false, not,
  ◌||◌, if◌then◌else◌, ltb, leb, ◌==◌, length, any, select, str_eq,
}
use bosphor.Staged.Types.{StagedIntentRow}
use bosphor.Lifecycle.{IntentCommitment}
use bosphor.Processor.Tick.{ReadyStore, is_skipped, ready_one}

-- The set `inProcess`: `has`, `add` and `delete`.
abbrev pub has : String → List String → Bool
has id ids = any (λ x. str_eq x id) ids

unfoldable pub add_id : String → List String → List String
add_id id ids = if has id ids then ids else ids ++ (id ∷ [])

unfoldable pub delete_id : String → List String → List String
delete_id id ids = select (λ x. not (str_eq x id)) ids

-- A store that runs, less.
unfoldable pub forget : String → List String → List String
forget id [] = []
forget id (x ∷ xs) = let rest = forget id xs in if str_eq x id then xs else x ∷ rest

-- What a tick waits for: its claim, the feed's answer for the next row, or its stores.
pub data Phase : Type 0 where
  claiming storing : Phase
  looking : List StagedIntentRow → List ReadyStore → Phase

-- A tick that has not ended, by its `now`.
pub record Flight : Type 0 where
  pub at : ℕ
  pub phase : Phase

-- The fields of the processor; the ticks in flight, the newest first; the intents whose `store` runs;
-- and how many callbacks of `setImmediate` and how many sweeps are to come or under way.
pub record Engine : Type 0 where
  pub stopped : Bool
  pub tick_started_at : Option ℕ
  pub wake_pending : Bool
  pub recovering : Bool
  pub in_process : List String
  pub flights : List Flight
  pub running : List String
  pub immediates : ℕ
  pub sweeps : ℕ

abbrev pub at_start : Engine
at_start = record {
  stopped = false;
  tick_started_at = none;
  wake_pending = false;
  recovering = false;
  in_process = [];
  flights = [];
  running = [];
  immediates = 0;
  sweeps = 0;
}

abbrev pub flight_at : ℕ → List Flight → Option Flight
flight_at i [] = none
flight_at zero (f ∷ fs) = some f
flight_at (suc i) (f ∷ fs) = flight_at i fs

abbrev pub set_phase : ℕ → Phase → List Flight → List Flight
set_phase i phase [] = []
set_phase zero phase (f ∷ fs) = record f { phase = phase } ∷ fs
set_phase (suc i) phase (f ∷ fs) = f ∷ set_phase i phase fs

abbrev pub drop_at : ℕ → List Flight → List Flight
drop_at i [] = []
drop_at zero (f ∷ fs) = fs
drop_at (suc i) (f ∷ fs) = f ∷ drop_at i fs

abbrev pub owns : Option ℕ → ℕ → Bool
owns none at = false
owns (some started) at = started == at

-- The end of a tick: it clears the slot only if it still owns it.
unfoldable pub finish : ℕ → Flight → Engine → Engine
finish i f e = record e {
  tick_started_at = if owns e.tick_started_at f.at then none else e.tick_started_at;
  flights = drop_at i e.flights;
}

abbrev pub into : ℕ → Phase → Engine → Engine
into i phase e = record e { flights = set_phase i phase e.flights }

-- The answer of `drainDue`, or its failure.
unfoldable pub claimed : ℕ → Option (List StagedIntentRow) → Flight → Phase → Engine → Engine
unfolding finish
claimed i none f claiming e = finish i f e
claimed i (some rows) f claiming e = into i (looking rows []) e
claimed i answer f (looking rows ready) e = e
claimed i answer f storing e = e

abbrev pub ids_of : List ReadyStore → List String
ids_of ready = map (λ r. r.row.intent_id) ready

abbrev pub with_ready : List ReadyStore → Option ReadyStore → List ReadyStore
with_ready ready none = ready
with_ready ready (some r) = ready ++ (r ∷ [])

abbrev pub add_all : List String → List String → List String
add_all [] set = set
add_all (id ∷ ids) set = add_all ids (add_id id set)

-- A row that is skipped without asking the feed.
abbrev pub skips : Flight → Engine → StagedIntentRow → Bool
skips f e row = is_skipped f.at (λ id. has id e.in_process) (λ id. none) row

-- All stores of a tick are started at once, and each enters the set before its first await.
abbrev pub launch : ℕ → List ReadyStore → Engine → Engine
launch i ready e = record e {
  flights = set_phase i storing e.flights;
  in_process = add_all (ids_of ready) e.in_process;
  running = e.running ++ ids_of ready;
}

module _ (store_concurrency : ℕ) where
  -- The next row, with the feed's answer for it or its failure.
  unfoldable pub looked : ℕ → Option (Option IntentCommitment) → Flight → Phase → Engine → Engine
  unfolding finish
  looked i answer f claiming e = e
  looked i answer f storing e = e
  looked i answer f (looking [] ready) e = e
  looked i answer f (looking (row ∷ rows) ready) e =
      if leb store_concurrency (length ready)
      then e
      else if skips f e row
      then into i (looking rows ready) e
      else elim answer [
        | none ↦ finish i f e
        | some c ↦
            into i
              (looking rows
                (with_ready ready (ready_one f.at (λ id. has id e.in_process) (λ id. c) row)))
              e
      ]

  abbrev pub is_done : List StagedIntentRow → List ReadyStore → Bool
  is_done [] ready = true
  is_done (row ∷ rows) ready = leb store_concurrency (length ready)

  unfoldable pub launched : ℕ → Phase → Engine → Engine
  unfolding add_id
  launched i claiming e = e
  launched i storing e = e
  launched i (looking rows ready) e = if is_done rows ready then launch i ready e else e

module _ (tick_watchdog_ms : ℕ) where
  abbrev pub is_recent : ℕ → Option ℕ → Bool
  is_recent now none = false
  is_recent now (some started) = ltb now (started + tick_watchdog_ms)

  unfoldable pub start_tick : ℕ → Engine → Engine
  start_tick now e = if e.stopped || is_recent now e.tick_started_at then e else record e {
    tick_started_at = some now;
    flights = record { at = now; phase = claiming } ∷ e.flights;
  }

-- `scheduleWake`.
unfoldable pub schedule_wake : Engine → Engine
schedule_wake e =
    if e.stopped || e.wake_pending
    then e
    else record e { wake_pending = true; immediates = suc e.immediates }

-- The work of a store ends, and releases its place in the set.
unfoldable pub settled : String → Engine → Engine
unfolding forget delete_id
settled id e =
    if has id e.running
    then record e { in_process = delete_id id e.in_process; running = forget id e.running }
    else e

-- The stores of a tick have returned, at the latest after their timeout.
unfoldable pub ended : ℕ → Flight → Phase → Engine → Engine
unfolding finish
ended i f storing e = finish i f e
ended i f claiming e = e
ended i f (looking rows ready) e = e

unfoldable pub start_sweep : Engine → Engine
start_sweep e =
    if e.stopped || e.recovering then e else record e { recovering = true; sweeps = suc e.sweeps }

unfoldable pub end_sweep : Engine → Engine
end_sweep e = elim e.sweeps [
  | zero ↦ e
  | suc others ↦ record e { recovering = false; sweeps = others }
]

abbrev pub act : ℕ → (Flight → Engine → Engine) → Engine → Engine
act i k e = elim (flight_at i e.flights) [ none ↦ e | some f ↦ k f e ]

-- What may happen next. Numbers are positions among the ticks in flight, or readings of the clock.
pub data Event : Type 0 where
  ticks : ℕ → Event
  wakes : Event
  fires : ℕ → Event
  claims : ℕ → Option (List StagedIntentRow) → Event
  looks : ℕ → Option (Option IntentCommitment) → Event
  launches : ℕ → Event
  settles : String → Event
  ends : ℕ → Event
  sweeps : Event
  sweep_ends : Event
  stops : Event

-- The callback of `setImmediate`, if there is one.
unfoldable pub fire : ℕ → ℕ → Engine → Engine
unfolding start_tick
fire tick_watchdog_ms now e = elim e.immediates [
  | zero ↦ e
  | suc others ↦
      start_tick tick_watchdog_ms now (record e { wake_pending = false; immediates = others })
]

module _ (store_concurrency tick_watchdog_ms : ℕ) where
  unfoldable pub step : Event → Engine → Engine
  unfolding start_tick schedule_wake fire claimed looked launched settled ended start_sweep
      end_sweep
  step (ticks now) e = start_tick tick_watchdog_ms now e
  step wakes e = schedule_wake e
  step (fires now) e = fire tick_watchdog_ms now e
  step (claims i answer) e = act i (λ f. claimed i answer f f.phase) e
  step (looks i answer) e = act i (λ f. looked store_concurrency i answer f f.phase) e
  step (launches i) e = act i (λ f. launched store_concurrency i f.phase) e
  step (settles id) e = settled id e
  step (ends i) e = act i (λ f. ended i f f.phase) e
  step sweeps e = start_sweep e
  step sweep_ends e = end_sweep e
  step stops e = record e { stopped = true }

  unfoldable pub run_events : List Event → Engine → Engine
  unfolding step
  run_events [] e = e
  run_events (event ∷ events) e = run_events events (step event e)
