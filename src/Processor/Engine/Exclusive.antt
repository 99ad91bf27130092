-- ===== src/Processor/Engine/Exclusive.antt =====
-- No two stores of one intent run at a time, as long as no tick outlasts the watchdog.
use mathlib.Core.Path.{subst}
use bosphor.Base.{
  ℕ, zero, suc, String, false, not, ◌&&◌, ◌||◌, ◌≡◌, refl, sym, ap, ◌∙◌, Option, none, some, List,
  [], ◌∷◌, ◌++◌, unless, or_else, str_eq, arith,
}
use bosphor.Staged.Types.{StagedIntentRow}
use bosphor.Processor.Tick.{ReadyStore}
use bosphor.Processor.Engine.{
  Phase, storing, looking, Flight, Engine, at_start, flight_at, finish, into, claimed, looked,
  launched, is_recent, start_tick, Event, ticks, wakes, fires, claims, looks, launches, settles,
  ends, sweeps, sweep_ends, stops, schedule_wake, settled, ended, start_sweep, end_sweep, fire,
  step, run_events, has, ids_of, with_ready, launch,
}
use bosphor.Processor.Engine.Rows.{row_ids, OfQueue, drain_due-Distinct}
use bosphor.Processor.Engine.Sets.{
  Distinct, has-append, Distinct-append, has-forget, Distinct-forget, has-delete_id, has-add_all,
}
use bosphor.Processor.Engine.Acts.{
  Found, act-keeps, claimed-keeps, looked-keeps, launched-keeps, ended-keeps,
}
use bosphor.Processor.Engine.OneTick.{
  Unused, OneTick, InTime, Distinct-left, OneTick-forget, the_flight, OneTick-drop_at,
  OneTick-set_phase, Unused-with_ready, OneTick-start,
}

pub record IsExclusive (slot : Option ℕ) (flights : List Flight) (running set : List String)
    : Type 0 where
  pub one_tick : OneTick slot flights running
  pub distinct : Distinct running
  pub listed : (id : String) → has id set ≡ has id running

abbrev pub Exclusive : Engine → Type 0
Exclusive e = IsExclusive e.tick_started_at e.flights e.running e.in_process

-- Claims are those of the queue, and no tick outlasts the watchdog.
abbrev pub Prompt : Event → ℕ → Engine → Type 0
Prompt (ticks now) gap e = InTime gap now e.tick_started_at
Prompt (fires now) gap e = InTime gap now e.tick_started_at
Prompt (claims i answer) gap e = OfQueue answer
Prompt event gap e = Unit

abbrev pub AllPrompt : ℕ → ℕ → List Event → Engine → Type 0
AllPrompt concurrency gap [] e = Unit
AllPrompt concurrency gap (event ∷ events) e =
    Prompt event gap e × AllPrompt concurrency gap events (step concurrency gap event e)

module _ (i : ℕ) (f : Flight) (e : Engine) (found : flight_at i e.flights ≡ some f)
    (x : Exclusive e) where
  finish-Exclusive : Exclusive (finish i f e)
  unfolding finish
  finish-Exclusive = record {
    one_tick = OneTick-drop_at i e.tick_started_at e.flights e.running f found x.one_tick;
    distinct = x.distinct;
    listed = x.listed;
  }

  into-Exclusive : (phase : Phase) → Unused phase e.running → Exclusive (into i phase e)
  into-Exclusive phase u = record {
    one_tick =
        OneTick-set_phase i phase e.tick_started_at e.flights e.running e.running f found x.one_tick
          u;
    distinct = x.distinct;
    listed = x.listed;
  }

  launch-Exclusive :
      (rows : List StagedIntentRow) (ready : List ReadyStore)
      → Unused (looking rows ready) e.running
      → Exclusive (launch i ready e)
  launch-Exclusive rows ready (d, a) = record {
    one_tick =
        OneTick-set_phase i storing e.tick_started_at e.flights e.running
          (e.running ++ ids_of ready) f found x.one_tick tt;
    distinct =
        Distinct-append e.running (ids_of ready) x.distinct
          (Distinct-left (ids_of ready) (row_ids rows) d) a;
    listed = λ id.
        has-add_all (ids_of ready) id e.in_process
        ∙ ap (λ b. b || has id (ids_of ready)) (x.listed id)
        ∙ sym (has-append id e.running (ids_of ready));
  }

  unused : Unused f.phase e.running
  unused = the_flight i e.tick_started_at e.flights e.running f found x.one_tick

  -- What a claim of the queue gives is looked at.
  into_claim :
      (answer : Option (List StagedIntentRow)) (rows : List StagedIntentRow)
      → OfQueue answer
      → answer ≡ some rows
      → Exclusive (into i (looking rows []) e)
  into_claim none rows k h = cc h
  into_claim (some given) rows (t, now, limit, who, lease_ms, locked, k, of_claim) h =
      into-Exclusive (looking rows []) (
        subst (λ rs. Distinct (row_ids rs)) (sym of_claim ∙ ap (λ o. or_else o given) h)
            (drain_due-Distinct now limit who lease_ms locked t k),
        tt,
      )

  into_next :
      (row : StagedIntentRow) (rows : List StagedIntentRow) (ready : List ReadyStore)
      (o : Option ReadyStore)
      → f.phase ≡ looking (row ∷ rows) ready
      → Found e row o
      → Exclusive (into i (looking rows (with_ready ready o)) e)
  into_next row rows ready o phase finds = into-Exclusive (looking rows (with_ready ready o)) (
      Unused-with_ready e row rows ready o x.listed finds
        (subst (λ p. Unused p e.running) phase unused))

settled-Exclusive : (id : String) (e : Engine) → Exclusive e → Exclusive (settled id e)
unfolding settled
settled-Exclusive id e x =
    unless Exclusive (has id e.running)
      (record {
        one_tick = OneTick-forget id e.tick_started_at e.flights e.running x.distinct x.one_tick;
        distinct = Distinct-forget id e.running x.distinct;
        listed = λ other.
            has-delete_id id other e.in_process
            ∙ ap (λ b. b && not (str_eq id other)) (x.listed other)
            ∙ sym (has-forget id other e.running x.distinct);
      })
      (λ unknown. x)

module _ (concurrency gap : ℕ) where
  start_tick-Exclusive :
      (now : ℕ) (e : Engine)
      → InTime gap now e.tick_started_at
      → Exclusive e
      → Exclusive (start_tick gap now e)
  unfolding start_tick
  start_tick-Exclusive now e in_time x =
      unless Exclusive (e.stopped || is_recent gap now e.tick_started_at) x (λ idle. record {
        one_tick =
            OneTick-start gap now e.tick_started_at e.flights e.running in_time
              (ground (arith, idle)) x.one_tick;
        distinct = x.distinct;
        listed = x.listed;
      })

  fire-Exclusive :
      (now n : ℕ) (e : Engine)
      → InTime gap now e.tick_started_at
      → Exclusive e
      → e.immediates ≡ n
      → Exclusive (fire gap now e)
  unfolding fire
  fire-Exclusive now zero e in_time x none_due = rw (none_due, fire) x
  fire-Exclusive now (suc others) e in_time x due =
      rw (due, fire)
        (start_tick-Exclusive now (record e { wake_pending = false; immediates = others }) in_time
          x)

  end_sweep-Exclusive : (n : ℕ) (e : Engine) → Exclusive e → e.sweeps ≡ n → Exclusive (end_sweep e)
  unfolding end_sweep
  end_sweep-Exclusive zero e x none_due = rw (none_due, end_sweep) x
  end_sweep-Exclusive (suc others) e x due = rw (due, end_sweep) x

  step-Exclusive :
      (event : Event) (e : Engine)
      → Prompt event gap e
      → Exclusive e
      → Exclusive (step concurrency gap event e)
  unfolding step schedule_wake start_sweep end_sweep fire
  step-Exclusive (ticks now) e p x = start_tick-Exclusive now e p x
  step-Exclusive (fires now) e p x = fire-Exclusive now e.immediates e p x refl
  step-Exclusive wakes e p x = unless Exclusive (e.stopped || e.wake_pending) x (λ idle. x)
  step-Exclusive (claims i answer) e p x =
      act-keeps Exclusive i (λ f. claimed i answer f f.phase) e x
        (λ f at.
          claimed-keeps Exclusive i f e x answer f.phase (finish-Exclusive i f e at x)
            (λ rows h. into_claim i f e at x answer rows p h))
  step-Exclusive (looks i answer) e p x =
      act-keeps Exclusive i (λ f. looked concurrency i answer f f.phase) e x
        (λ f at.
          looked-keeps Exclusive i f e x concurrency answer f.phase (finish-Exclusive i f e at x)
            (into_next i f e at x))
  step-Exclusive (launches i) e p x =
      act-keeps Exclusive i (λ f. launched concurrency i f.phase) e x
        (λ f at. launched-keeps Exclusive i f e x concurrency f.phase (λ rows ready phase.
          launch-Exclusive i f e at x rows ready
            (subst (λ q. Unused q e.running) phase (unused i f e at x))))
  step-Exclusive (settles id) e p x = settled-Exclusive id e x
  step-Exclusive (ends i) e p x =
      act-keeps Exclusive i (λ f. ended i f f.phase) e x
        (λ f at. ended-keeps Exclusive i f e x f.phase (finish-Exclusive i f e at x))
  step-Exclusive sweeps e p x = unless Exclusive (e.stopped || e.recovering) x (λ idle. x)
  step-Exclusive sweep_ends e p x = end_sweep-Exclusive e.sweeps e x refl
  step-Exclusive stops e p x = x

  run_events-Exclusive :
      (events : List Event) (e : Engine)
      → AllPrompt concurrency gap events e
      → Exclusive e
      → Exclusive (run_events concurrency gap events e)
  unfolding run_events
  run_events-Exclusive [] e p x = x
  run_events-Exclusive (event ∷ events) e (p, ps) x =
      run_events-Exclusive events (step concurrency gap event e) ps (step-Exclusive event e p x)

-- However calls, answers and ends follow each other from the start: if claims are those of a queue with
-- unique keys, and no tick is still in flight when the watchdog lets another one start, then no two
-- stores of one intent run at a time, also after their timeouts, and the set of intents in process is
-- exactly that of the stores that run.
pub run_events-NoTwo :
    (concurrency tick_watchdog_ms : ℕ) (events : List Event)
    → AllPrompt concurrency tick_watchdog_ms events at_start
    → let e = run_events concurrency tick_watchdog_ms events at_start in
      Distinct e.running × ((id : String) → has id e.in_process ≡ has id e.running)
run_events-NoTwo concurrency tick_watchdog_ms events prompt =
    let x =
      run_events-Exclusive concurrency tick_watchdog_ms events at_start prompt
        (record { one_tick = tt; distinct = tt; listed = λ id. refl }) in
    (x.distinct, x.listed)
