-- ===== src/Processor/Engine/Guards.antt =====
-- Ticks that overlap are the watchdog apart, and neither wakes nor sweeps overlap.
use mathlib.Core.Path.{subst}
use bosphor.Base.{
  ℕ, zero, suc, Bool, ◌+◌, ◌≤◌, true, false, ◌≡◌, refl, sym, ap, Option, none, some, List, [], ◌∷◌,
  map, if◌then◌else◌, ◌||◌, unless, All, All-imp, arith,
}
use bosphor.Processor.Engine.{
  Phase, storing, looking, Flight, Engine, at_start, flight_at, set_phase, drop_at, owns, finish,
  into, claimed, looked, launched, is_recent, start_tick, Event, ticks, wakes, fires, claims, looks,
  launches, settles, ends, sweeps, sweep_ends, stops, schedule_wake, settled, ended, start_sweep,
  end_sweep, fire, step, run_events, has,
}
use bosphor.Processor.Engine.Acts.{
  act-keeps, claimed-keeps, looked-keeps, launched-keeps, ended-keeps,
}

-- When the ticks in flight started, the latest first.
abbrev pub starts : Engine → List ℕ
starts e = map (λ f. f.at) e.flights

abbrev pub Before : ℕ → ℕ → List ℕ → Type 0
Before gap at starts = All (λ earlier. earlier + gap ≤ at) starts

-- Each is at least the gap after all earlier ones.
abbrev pub Spaced : ℕ → List ℕ → Type 0
Spaced gap [] = Unit
Spaced gap (at ∷ earlier) = Before gap at earlier × Spaced gap earlier

-- The clock, after an event.
abbrev pub clock_after : ℕ → Event → ℕ
clock_after clock (ticks now) = now
clock_after clock (fires now) = now
clock_after clock event = clock

-- The clock never goes back.
abbrev pub Forward : ℕ → List Event → Type 0
Forward clock [] = Unit
Forward clock (event ∷ events) =
    (clock ≤ clock_after clock event) × Forward (clock_after clock event) events

-- The latest tick holds the slot, or none does, and the others are overdue.
abbrev Slots : ℕ → ℕ → Option ℕ → List ℕ → Type 0
Slots gap clock none starts = Before gap clock starts
Slots gap clock (some started) [] = ⊥
Slots gap clock (some started) (at ∷ earlier) =
    (at ≡ started) × (started ≤ clock) × Before gap started earlier

map-set_phase :
    (i : ℕ) (phase : Phase) (fs : List Flight)
    → map (λ f. f.at) (set_phase i phase fs) ≡ map (λ f. f.at) fs
map-set_phase zero phase [] = refl
map-set_phase (suc i) phase [] = refl
map-set_phase zero phase (f ∷ fs) = refl
map-set_phase (suc i) phase (f ∷ fs) = ap (◌∷◌ f.at) (map-set_phase i phase fs)

module _ (gap : ℕ) where
  Before-later : (a b : ℕ) (ts : List ℕ) → a ≤ b → Before gap a ts → Before gap b ts
  Before-later a b ts h = All-imp ts (λ t k. omega (arith, h, k))

  Before-drop_at :
      (clock i : ℕ) (fs : List Flight)
      → Before gap clock (map (λ f. f.at) fs)
      → Before gap clock (map (λ f. f.at) (drop_at i fs))
  Before-drop_at clock zero [] h = tt
  Before-drop_at clock (suc i) [] h = tt
  Before-drop_at clock zero (f ∷ fs) (h, hs) = hs
  Before-drop_at clock (suc i) (f ∷ fs) (h, hs) = (h, Before-drop_at clock i fs hs)

  Spaced-drop_at :
      (i : ℕ) (fs : List Flight)
      → Spaced gap (map (λ f. f.at) fs)
      → Spaced gap (map (λ f. f.at) (drop_at i fs))
  Spaced-drop_at zero [] h = tt
  Spaced-drop_at (suc i) [] h = tt
  Spaced-drop_at zero (f ∷ fs) (h, hs) = hs
  Spaced-drop_at (suc i) (f ∷ fs) (h, hs) = (Before-drop_at f.at i fs h, Spaced-drop_at i fs hs)

  Before-flight_at :
      (clock i : ℕ) (fs : List Flight) (f : Flight)
      → flight_at i fs ≡ some f
      → Before gap clock (map (λ g. g.at) fs)
      → f.at + gap ≤ clock
  Before-flight_at clock zero [] f e h = cc e
  Before-flight_at clock (suc i) [] f e h = cc e
  Before-flight_at clock zero (g ∷ fs) f e (h, hs) =
      subst (λ o. elim o [ none ↦ Unit | some x ↦ x.at + gap ≤ clock ]) e h
  Before-flight_at clock (suc i) (g ∷ fs) f e (h, hs) = Before-flight_at clock i fs f e hs

  -- The slot, after a tick has ended.
  abbrev cleared : Option ℕ → ℕ → Option ℕ
  cleared slot at = if owns slot at then none else slot

  Slots-drop_at :
      (clock i : ℕ) (slot : Option ℕ) (fs : List Flight) (f : Flight)
      → 1 ≤ gap
      → flight_at i fs ≡ some f
      → Slots gap clock slot (map (λ g. g.at) fs)
      → Slots gap clock (cleared slot f.at) (map (λ g. g.at) (drop_at i fs))
  Slots-drop_at clock i none fs f p e h = Before-drop_at clock i fs h
  Slots-drop_at clock zero (some started) [] f p e h = absurd h
  Slots-drop_at clock (suc i) (some started) [] f p e h = absurd h
  Slots-drop_at clock zero (some started) (g ∷ fs) f p e (own, past, before) =
      let same : g.at ≡ f.at = ap (λ o. elim o [ none ↦ g.at | some x ↦ x.at ]) e in
      let owned : owns (some started) f.at ≡ true = ground (arith, own, same) in
      rw owned (Before-later started clock (map (λ x. x.at) fs) past before)
  Slots-drop_at clock (suc i) (some started) (g ∷ fs) f p e (own, past, before) =
      let overdue = Before-flight_at started i fs f e before in
      let other : owns (some started) f.at ≡ false = ground (arith, p, overdue) in
      rw other ((own, past, Before-drop_at started i fs before))

  abbrev Counted : ℕ → Bool → Type 0
  Counted n flag = n ≡ (if flag then 1 else 0)

  abbrev Guarded : ℕ → Engine → Type 0
  Guarded clock e =
      Slots gap clock e.tick_started_at (starts e)
      × Spaced gap (starts e)
      × Counted e.immediates e.wake_pending
      × Counted e.sweeps e.recovering

  Slots-later :
      (a b : ℕ) (slot : Option ℕ) (ts : List ℕ) → a ≤ b → Slots gap a slot ts → Slots gap b slot ts
  Slots-later a b none ts h k = Before-later a b ts h k
  Slots-later a b (some started) [] h k = absurd k
  Slots-later a b (some started) (at ∷ earlier) h (own, past, before) =
      (own, omega (arith, h, past), before)

  -- A tick that is not recent is overdue, and so are those before it.
  Slots-overdue :
      (now : ℕ) (slot : Option ℕ) (ts : List ℕ)
      → Slots gap now slot ts
      → is_recent gap now slot ≡ false
      → Before gap now ts
  Slots-overdue now none ts h free = h
  Slots-overdue now (some started) [] h free = absurd h
  Slots-overdue now (some started) (at ∷ earlier) (own, past, before) free =
      let old : started + gap ≤ now = ground arith in
      (omega (arith, own, old), Before-later started now earlier past before)

  into-Guarded :
      (clock i : ℕ) (phase : Phase) (e : Engine) → Guarded clock e → Guarded clock (into i phase e)
  into-Guarded clock i phase e (slots, spaced, wake, sweep) =
      let same = sym (map-set_phase i phase e.flights) in
      (
        subst (Slots gap clock e.tick_started_at) same slots,
        subst (Spaced gap) same spaced,
        wake,
        sweep,
      )

  finish-Guarded :
      (clock i : ℕ) (f : Flight) (e : Engine)
      → 1 ≤ gap
      → flight_at i e.flights ≡ some f
      → Guarded clock e
      → Guarded clock (finish i f e)
  unfolding finish
  finish-Guarded clock i f e positive found (slots, spaced, wake, sweep) = (
    Slots-drop_at clock i e.tick_started_at e.flights f positive found slots,
    Spaced-drop_at i e.flights spaced,
    wake,
    sweep,
  )

  start_tick-Guarded :
      (clock now : ℕ) (e : Engine)
      → clock ≤ now
      → Guarded clock e
      → Guarded now (start_tick gap now e)
  unfolding start_tick
  start_tick-Guarded clock now e forward (slots, spaced, wake, sweep) =
      let later = Slots-later clock now e.tick_started_at (starts e) forward slots in
      unless (Guarded now) (e.stopped || is_recent gap now e.tick_started_at)
        (later, spaced, wake, sweep)
        (λ idle.
          let old = Slots-overdue now e.tick_started_at (starts e) later (ground (arith, idle)) in
          ((refl, omega arith, old), (old, spaced), wake, sweep))

  fire-Guarded :
      (clock now n : ℕ) (e : Engine)
      → clock ≤ now
      → Guarded clock e
      → e.immediates ≡ n
      → Guarded now (fire gap now e)
  unfolding fire
  fire-Guarded clock now zero e forward (slots, spaced, wake, sweep) none_due =
      rw (none_due, fire)
        ((Slots-later clock now e.tick_started_at (starts e) forward slots, spaced, wake, sweep))
  fire-Guarded clock now (suc others) e forward (slots, spaced, wake, sweep) due =
      rw (due, fire)
        (start_tick-Guarded clock now (record e { wake_pending = false; immediates = others })
          forward (slots, spaced, ground (arith, wake, due), sweep))

  end_sweep-Guarded :
      (clock n : ℕ) (e : Engine) → Guarded clock e → e.sweeps ≡ n → Guarded clock (end_sweep e)
  unfolding end_sweep
  end_sweep-Guarded clock zero e g none_due = rw (none_due, end_sweep) g
  end_sweep-Guarded clock (suc others) e (slots, spaced, wake, sweep) due =
      rw (due, end_sweep) ((slots, spaced, wake, ground (arith, sweep, due)))

  module _ (positive : 1 ≤ gap) (concurrency : ℕ) where
    step-Guarded :
        (event : Event) (clock : ℕ) (e : Engine)
        → clock ≤ clock_after clock event
        → Guarded clock e
        → Guarded (clock_after clock event) (step concurrency gap event e)
    unfolding step schedule_wake settled start_sweep
    step-Guarded (ticks now) clock e h g = start_tick-Guarded clock now e h g
    step-Guarded (fires now) clock e h g = fire-Guarded clock now e.immediates e h g refl
    step-Guarded wakes clock e h (slots, spaced, wake, sweep) =
        unless (Guarded clock) (e.stopped || e.wake_pending) (slots, spaced, wake, sweep)
          (λ idle. (slots, spaced, ground (arith, wake, idle), sweep))
    step-Guarded (claims i answer) clock e h g =
        act-keeps (Guarded clock) i (λ f. claimed i answer f f.phase) e g
          (λ f at.
            claimed-keeps (Guarded clock) i f e g answer f.phase
              (finish-Guarded clock i f e positive at g)
              (λ rows h. into-Guarded clock i (looking rows []) e g))
    step-Guarded (looks i answer) clock e h g =
        act-keeps (Guarded clock) i (λ f. looked concurrency i answer f f.phase) e g
          (λ f at.
            looked-keeps (Guarded clock) i f e g concurrency answer f.phase
              (finish-Guarded clock i f e positive at g)
              (λ row rows ready o h k. into-Guarded clock i _ e g))
    step-Guarded (launches i) clock e h g =
        act-keeps (Guarded clock) i (λ f. launched concurrency i f.phase) e g
          (λ f at.
            launched-keeps (Guarded clock) i f e g concurrency f.phase
              (λ rows ready h. into-Guarded clock i storing e g))
    step-Guarded (ends i) clock e h g =
        act-keeps (Guarded clock) i (λ f. ended i f f.phase) e g
          (λ f at.
            ended-keeps (Guarded clock) i f e g f.phase (finish-Guarded clock i f e positive at g))
    step-Guarded (settles id) clock e h g =
        unless (Guarded clock) (has id e.running) g (λ unknown. g)
    step-Guarded sweeps clock e h (slots, spaced, wake, sweep) =
        unless (Guarded clock) (e.stopped || e.recovering) (slots, spaced, wake, sweep)
          (λ idle. (slots, spaced, wake, ground (arith, sweep, idle)))
    step-Guarded sweep_ends clock e h g = end_sweep-Guarded clock e.sweeps e g refl
    step-Guarded stops clock e h g = g

    run_events-Guarded :
        (events : List Event) (clock : ℕ) (e : Engine)
        → Forward clock events
        → Guarded clock e
        → (c : ℕ) × Guarded c (run_events concurrency gap events e)
    unfolding run_events
    run_events-Guarded [] clock e forward g = (clock, g)
    run_events-Guarded (event ∷ events) clock e (h, hs) g =
        run_events-Guarded events _ _ hs (step-Guarded event clock e h g)

-- However calls, answers and ends follow each other from the start, the clock never going back: of the
-- ticks that are in flight at a time, each started at least the watchdog after all earlier ones, and
-- at most one wake is scheduled and at most one sweep is under way, exactly if the flag says so.
pub run_events-IsGuarded :
    (concurrency tick_watchdog_ms clock : ℕ) (events : List Event)
    → 1 ≤ tick_watchdog_ms
    → Forward clock events
    → let e = run_events concurrency tick_watchdog_ms events at_start in
      Spaced tick_watchdog_ms (starts e)
      × (e.immediates ≡ (if e.wake_pending then 1 else 0))
      × (e.sweeps ≡ (if e.recovering then 1 else 0))
run_events-IsGuarded concurrency tick_watchdog_ms clock events positive forward =
    let (_, (_, spaced, wake, sweep)) =
      run_events-Guarded tick_watchdog_ms positive concurrency events clock at_start forward
        (tt, tt, refl, refl) in
    (spaced, wake, sweep)
