-- ===== src/Processor/Engine/Acts.antt =====
-- What the events of a tick in flight come to: nothing, its end, another phase, or the start of its
-- stores.
use bosphor.Base.{
  ℕ, String, false, ◌≡◌, refl, Option, none, some, List, [], ◌∷◌, leb, length, unless, Option-cases,
  inl, inr,
}
use bosphor.Staged.Types.{StagedIntentRow}
use bosphor.Lifecycle.{IntentCommitment}
use bosphor.Processor.Tick.{ReadyStore, ready_one}
use bosphor.Processor.Tick.Ready.{ready_one-IsReady}
use bosphor.Processor.Engine.{
  Phase, claiming, storing, looking, Flight, Engine, flight_at, finish, into, claimed, looked,
  launch, launched, is_done, ended, act, has, skips, with_ready,
}

-- What is found ready is the row, which is not in process.
abbrev pub Found : Engine → StagedIntentRow → Option ReadyStore → Type 0
Found e row o =
    (r : ReadyStore) → o ≡ some r → (r.row ≡ row) × (has r.row.intent_id e.in_process ≡ false)

module _ (P : Engine → Type 0) where
  pub act-keeps :
      (i : ℕ) (k : Flight → Engine → Engine) (e : Engine)
      → P e
      → ((f : Flight) → flight_at i e.flights ≡ some f → P (k f e))
      → P (act i k e)
  act-keeps i k e h acts = elim (Option-cases (flight_at i e.flights)) [
    | inl missing ↦ rw (missing, act) h
    | inr (f, found) ↦ rw (found, act) (acts f found)
  ]

  module _ (i : ℕ) (f : Flight) (e : Engine) (same : P e) where
    pub claimed-keeps :
        (answer : Option (List StagedIntentRow)) (phase : Phase)
        → P (finish i f e)
        → ((rows : List StagedIntentRow) → answer ≡ some rows → P (into i (looking rows []) e))
        → P (claimed i answer f phase e)
    unfolding claimed
    claimed-keeps none claiming ends goes = ends
    claimed-keeps (some rows) claiming ends goes = goes rows refl
    claimed-keeps none (looking rows ready) ends goes = same
    claimed-keeps (some new) (looking rows ready) ends goes = same
    claimed-keeps none storing ends goes = same
    claimed-keeps (some rows) storing ends goes = same

    pub ended-keeps : (phase : Phase) → P (finish i f e) → P (ended i f phase e)
    unfolding ended
    ended-keeps storing ends = ends
    ended-keeps claiming ends = same
    ended-keeps (looking rows ready) ends = same

    module _ (concurrency : ℕ) where
      pub looked-keeps :
          (answer : Option (Option IntentCommitment)) (phase : Phase)
          → P (finish i f e)
          → ((row : StagedIntentRow) (rows : List StagedIntentRow) (ready : List ReadyStore)
                (o : Option ReadyStore)
              → phase ≡ looking (row ∷ rows) ready
              → Found e row o
              → P (into i (looking rows (with_ready ready o)) e))
          → P (looked concurrency i answer f phase e)
      unfolding looked
      looked-keeps answer claiming ends goes = same
      looked-keeps answer storing ends goes = same
      looked-keeps answer (looking [] ready) ends goes = same
      looked-keeps none (looking (row ∷ rows) ready) ends goes =
          unless P (leb concurrency (length ready)) same (λ room.
            unless P (skips f e row) (goes row rows ready none refl (λ r h. cc)) (λ due. ends))
      looked-keeps (some c) (looking (row ∷ rows) ready) ends goes =
          let used = λ (id : String). has id e.in_process in
          let o = ready_one f.at used (λ id. c) row in
          unless P (leb concurrency (length ready)) same (λ room.
            unless P (skips f e row) (goes row rows ready none refl (λ r h. cc)) (λ due.
              goes row rows ready o refl (λ r h.
                let (is_ready, is_row) = ready_one-IsReady f.at used (λ id. c) row r h in
                (is_row, is_ready.free))))

      pub launched-keeps :
          (phase : Phase)
          → ((rows : List StagedIntentRow) (ready : List ReadyStore)
              → phase ≡ looking rows ready
              → P (launch i ready e))
          → P (launched concurrency i phase e)
      unfolding launched
      launched-keeps claiming starts = same
      launched-keeps storing starts = same
      launched-keeps (looking rows ready) starts =
          unless P (is_done concurrency rows ready) (starts rows ready refl) (λ early. same)
