-- ===== src/Evm/Watcher/Told.antt =====
-- One poll of the watcher tells the feed what the contract has on record.
use mathlib.Core.Option as Option
use mathlib.Core.Path.{subst}
use bosphor.Base.{
  ℕ, zero, suc, ◌+◌, ◌-◌, ◌*◌, Option, none, some, List, [], ◌∷◌, map, ◌≡◌, refl, sym, ap, inl, inr,
  Bool-cases, ltb, All, All-append, All-map, All-imp, ◌⊎◌, String,
}
use bosphor.Lifecycle.Track.Knows.{Committed, Leaves, Brings, Informed, track_all-Informed}
use bosphor.Evm.Poll.{
  SubmittedArgs, Log, SubmittedEvent, ExecutedEvent, EvmLifecycleEvents, Rpc, submitted_events,
  read_log, submitted_event, both_logs, poll_below, evm_head_lag, read_logs,
}
use bosphor.Evm.Watcher.{
  Watcher, Answers, Event, tick, ends, submitted_call, confirmed_call, take_events,
}
use bosphor.Evm.Watcher.Calls.{Chain, IsOf, span}

-- Every call of `recordHop` is served.
abbrev pub Serving : Answers → Type 0
Serving answers = (n : ℕ) → (now : ℕ) × (answers.serves n ≡ some now)

abbrev pub EventServing : Event → Type 0
EventServing tick = Unit
EventServing (ends i answers) = Serving answers

module _ (committed : String → Committed) where
  -- The arguments of a log are what the contract has on record, the deadline in milliseconds.
  abbrev pub Matches : Option SubmittedArgs → Type 0
  Matches none = Unit
  Matches (some args) =
      committed args.intent_id
      ≡ record { blob_id = args.blob_id; size = args.size; deadline = args.deadline * 1000 }

  abbrev pub OfContract : Chain → Type 0
  OfContract chain = (block : ℕ) → All (λ log. Matches log.args) (chain.submitted_at block)

  abbrev pub Told : SubmittedEvent → Type 0
  Told e = Brings committed (submitted_call e)

  pub submitted_events-Told :
      (logs : List (Log SubmittedArgs))
      → All (λ log. Matches log.args) logs
      → All Told (submitted_events logs)
  unfolding submitted_events read_logs
  submitted_events-Told [] h = tt
  submitted_events-Told (log ∷ logs) (m, ms) =
      All-append Told _ (submitted_events logs) (first log.args m) (submitted_events-Told logs ms)
    where
      first :
          (args : Option SubmittedArgs)
          → Matches args
          → All Told (read_log submitted_event args log.transaction_hash)
      first none m = tt
      first (some args) m = (
        (
          ap (λ c. some c.blob_id) (sym m),
          ap (λ c. some c.size) (sym m),
          ap (λ c. some c.deadline) (sym m),
        ),
        tt,
      )

  pub span-Matches :
      (chain : Chain)
      → OfContract chain
      → (n block : ℕ) → All (λ log. Matches log.args) (span chain.submitted_at block n)
  span-Matches chain of_contract zero block = tt
  span-Matches chain of_contract (suc n) block =
      All-append _ (chain.submitted_at block) _ (of_contract block)
        (span-Matches chain of_contract n (suc block))

  take_events-Informed :
      (serves : ℕ → Option ℕ) (events : EvmLifecycleEvents) (w : Watcher)
      → ((n : ℕ) → (now : ℕ) × (serves n ≡ some now))
      → All Told events.submitted
      → Informed committed w.feed
      → Informed committed (take_events serves (some events) w).feed
  unfolding take_events
  take_events-Informed serves events w served told h =
      track_all-Informed committed serves (map confirmed_call events.executed) _ served
        (confirmed_bare events.executed)
        (track_all-Informed committed serves (map submitted_call events.submitted) w.feed served
          (All-map _ submitted_call events.submitted (All-imp events.submitted (λ e t. inr t) told))
          h)
    where
      confirmed_bare :
          (executed : List ExecutedEvent)
          → All
              (λ call. Leaves committed call ⊎ Brings committed call)
              (map confirmed_call executed)
      confirmed_bare [] = tt
      confirmed_bare (e ∷ es) = (inl (refl, refl, refl), confirmed_bare es)

  module _ (chain : Chain) (of_contract : OfContract chain) where
    both_logs-Told :
        (subs : Option (List (Log SubmittedArgs))) (execs : Option (List (Log String)))
        (from_block latest count : ℕ)
        → ((logs : List (Log SubmittedArgs))
            → subs ≡ some logs
            → logs ≡ span chain.submitted_at from_block count)
        → All Told (both_logs subs execs from_block latest).submitted
    unfolding both_logs
    both_logs-Told none execs from_block latest count h = tt
    both_logs-Told (some subs) none from_block latest count h = tt
    both_logs-Told (some subs) (some execs) from_block latest count h = submitted_events-Told subs (
        subst (All (λ log. Matches log.args)) (sym (h subs refl))
          (span-Matches chain of_contract count from_block))

    poll_below-Told :
        (rpc : Rpc) (from_block head : ℕ)
        → IsOf chain rpc
        → All Told (poll_below rpc from_block head).submitted
    unfolding poll_below
    poll_below-Told rpc from_block head honest =
        let latest = head - evm_head_lag in
        elim (Bool-cases (ltb head (from_block + evm_head_lag))) [
          | inl behind ↦ rw behind tt
          | inr ahead ↦ rw ahead (
              both_logs-Told (rpc.submitted_logs from_block latest)
                (rpc.executed_logs from_block latest) from_block latest _
                (honest.submitted from_block latest))
        ]

    pub answered-Informed :
        (answers : Answers) (from_block : ℕ) (block_number : Option ℕ) (w : Watcher)
        → IsOf chain answers.rpc
        → Serving answers
        → Informed committed w.feed
        → Informed committed
            (take_events answers.serves
              (Option.map (λ head. poll_below answers.rpc from_block head) block_number)
              w).feed
    unfolding take_events
    answered-Informed answers from_block none w honest served h = h
    answered-Informed answers from_block (some head) w honest served h =
        take_events-Informed answers.serves (poll_below answers.rpc from_block head) w served
          (poll_below-Told answers.rpc from_block head honest) h
