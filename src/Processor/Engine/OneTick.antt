-- ===== src/Processor/Engine/OneTick.antt =====
-- At most one tick is in flight, and what it has found ready does not run.
use mathlib.Core.Path.{subst}
use bosphor.Base.{
  ℕ, zero, suc, String, ◌+◌, ◌<◌, true, false, ◌≡◌, refl, sym, ap, ◌∙◌, Option, none, some, List,
  [], ◌∷◌, ◌++◌, if◌then◌else◌, All-append, arith,
}
use mathlib.Core.List.{append_assoc, map-append}
use bosphor.Staged.Types.{StagedIntentRow}
use bosphor.Processor.Tick.{ReadyStore}
use bosphor.Processor.Engine.{
  Phase, claiming, storing, looking, Flight, Engine, flight_at, set_phase, drop_at, owns, forget,
  is_recent, has, ids_of, with_ready,
}
use bosphor.Processor.Engine.Rows.{row_ids}
use bosphor.Processor.Engine.Sets.{Distinct, Apart, has-append, has-forget}
use bosphor.Processor.Engine.Acts.{Found}

-- What a tick has found ready does not run, and no intent is among its rows twice.
abbrev pub Unused : Phase → List String → Type 0
Unused claiming running = Unit
Unused storing running = Unit
Unused (looking rows ready) running =
    Distinct (ids_of ready ++ row_ids rows) × Apart (ids_of ready) running

-- There is a tick exactly if the slot is taken, and only one.
abbrev pub OneTick : Option ℕ → List Flight → List String → Type 0
OneTick none [] running = Unit
OneTick none (f ∷ fs) running = ⊥
OneTick (some started) [] running = ⊥
OneTick (some started) (f ∷ []) running = (f.at ≡ started) × Unused f.phase running
OneTick (some started) (f ∷ g ∷ fs) running = ⊥

-- A tick that comes after one has started finds it ended, or comes within the watchdog.
abbrev pub InTime : ℕ → ℕ → Option ℕ → Type 0
InTime gap now none = Unit
InTime gap now (some started) = now < started + gap

pub Distinct-left : (xs ys : List String) → Distinct (xs ++ ys) → Distinct xs
Distinct-left [] ys h = tt
Distinct-left (x ∷ xs) ys (h, hs) = (ground (arith, has-append x xs ys), Distinct-left xs ys hs)

-- Without one in the middle.
pub Distinct-without :
    (xs : List String) (y : String) (ys : List String)
    → Distinct (xs ++ (y ∷ ys))
    → Distinct (xs ++ ys)
Distinct-without [] y ys (h, hs) = hs
Distinct-without (x ∷ xs) y ys (h, hs) =
    (ground (arith, has-append x xs (y ∷ ys), has-append x xs ys), Distinct-without xs y ys hs)

Apart-forget :
    (id : String) (ids running : List String)
    → Distinct running
    → Apart ids running
    → Apart ids (forget id running)
Apart-forget id [] running d h = tt
Apart-forget id (x ∷ xs) running d (h, hs) =
    (ground (arith, has-forget id x running d), Apart-forget id xs running d hs)

Unused-forget :
    (id : String) (phase : Phase) (running : List String)
    → Distinct running
    → Unused phase running
    → Unused phase (forget id running)
Unused-forget id claiming running d h = tt
Unused-forget id storing running d h = tt
Unused-forget id (looking rows ready) running d (h, a) =
    (h, Apart-forget id (ids_of ready) running d a)

pub OneTick-forget :
    (id : String) (slot : Option ℕ) (fs : List Flight) (running : List String)
    → Distinct running
    → OneTick slot fs running
    → OneTick slot fs (forget id running)
OneTick-forget id none [] running d h = tt
OneTick-forget id none (f ∷ fs) running d h = absurd h
OneTick-forget id (some started) [] running d h = absurd h
OneTick-forget id (some started) (f ∷ []) running d (own, h) =
    (own, Unused-forget id f.phase running d h)
OneTick-forget id (some started) (f ∷ g ∷ fs) running d h = absurd h

pub the_flight :
    (i : ℕ) (slot : Option ℕ) (fs : List Flight) (running : List String) (f : Flight)
    → flight_at i fs ≡ some f
    → OneTick slot fs running
    → Unused f.phase running
the_flight i none [] running f e h = cc e
the_flight i none (g ∷ fs) running f e h = absurd h
the_flight i (some started) [] running f e h = absurd h
the_flight zero (some started) (g ∷ []) running f e (own, h) =
    subst (λ p. Unused p running) (ap (λ o. elim o [ none ↦ g.phase | some x ↦ x.phase ]) e) h
the_flight (suc i) (some started) (g ∷ []) running f e h = cc e
the_flight i (some started) (g ∷ k ∷ fs) running f e h = absurd h

pub OneTick-drop_at :
    (i : ℕ) (slot : Option ℕ) (fs : List Flight) (running : List String) (f : Flight)
    → flight_at i fs ≡ some f
    → OneTick slot fs running
    → OneTick (if owns slot f.at then none else slot) (drop_at i fs) running
OneTick-drop_at i none [] running f e h = tt
OneTick-drop_at i none (g ∷ fs) running f e h = absurd h
OneTick-drop_at i (some started) [] running f e h = absurd h
OneTick-drop_at zero (some started) (g ∷ []) running f e (own, h) =
    let same : g.at ≡ f.at = ap (λ o. elim o [ none ↦ g.at | some x ↦ x.at ]) e in
    let owned : owns (some started) f.at ≡ true = ground (arith, own, same) in rw owned tt
OneTick-drop_at (suc i) (some started) (g ∷ []) running f e h = cc e
OneTick-drop_at i (some started) (g ∷ k ∷ fs) running f e h = absurd h

pub OneTick-set_phase :
    (i : ℕ) (phase : Phase) (slot : Option ℕ) (fs : List Flight) (running after : List String)
    (f : Flight)
    → flight_at i fs ≡ some f
    → OneTick slot fs running
    → Unused phase after
    → OneTick slot (set_phase i phase fs) after
OneTick-set_phase i phase none [] running after f e h u = tt
OneTick-set_phase i phase none (g ∷ fs) running after f e h u = absurd h
OneTick-set_phase i phase (some started) [] running after f e h u = absurd h
OneTick-set_phase zero phase (some started) (g ∷ []) running after f e (own, h) u = (own, u)
OneTick-set_phase (suc i) phase (some started) (g ∷ []) running after f e h u = cc e
OneTick-set_phase i phase (some started) (g ∷ k ∷ fs) running after f e h u = absurd h

-- The row is passed over, or is found ready.
pub Unused-with_ready :
    (e : Engine) (row : StagedIntentRow) (rows : List StagedIntentRow) (ready : List ReadyStore)
    (o : Option ReadyStore)
    → ((id : String) → has id e.in_process ≡ has id e.running)
    → Found e row o
    → Unused (looking (row ∷ rows) ready) e.running
    → Unused (looking rows (with_ready ready o)) e.running
Unused-with_ready e row rows ready none listed found (d, a) =
    (Distinct-without (ids_of ready) row.intent_id (row_ids rows) d, a)
Unused-with_ready e row rows ready (some r) listed found (d, a) =
    let (same, free) = found r refl in
    let here : ids_of (ready ++ (r ∷ [])) ≡ ids_of ready ++ (r.row.intent_id ∷ []) =
      map-append (λ s. s.row.intent_id) ready (r ∷ []) in
    let ids : ids_of (ready ++ (r ∷ [])) ≡ ids_of ready ++ (row.intent_id ∷ []) =
      here ∙ ap (λ v. ids_of ready ++ (v.intent_id ∷ [])) same in
    let unused : has row.intent_id e.running ≡ false =
      subst (λ (v : StagedIntentRow). has v.intent_id e.running ≡ false) same
        (sym (listed r.row.intent_id) ∙ free) in
    (
      subst (λ xs. Distinct (xs ++ row_ids rows)) (sym ids)
          (subst Distinct (sym (append_assoc (ids_of ready) (row.intent_id ∷ []) (row_ids rows)))
            d),
      subst (λ xs. Apart xs e.running) (sym ids)
          (All-append _ (ids_of ready) (row.intent_id ∷ []) a (unused, tt)),
    )

pub OneTick-start :
    (gap now : ℕ) (slot : Option ℕ) (fs : List Flight) (running : List String)
    → InTime gap now slot
    → is_recent gap now slot ≡ false
    → OneTick slot fs running
    → OneTick (some now) (record { at = now; phase = claiming } ∷ fs) running
OneTick-start gap now none [] running in_time free h = (refl, tt)
OneTick-start gap now none (f ∷ fs) running in_time free h = absurd h
OneTick-start gap now (some started) fs running in_time free h =
    absurd (ground (arith, in_time, free))
