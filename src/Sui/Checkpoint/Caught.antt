-- ===== src/Sui/Checkpoint/Caught.antt =====
-- No event is missed: whatever fails, all events up to the cursor have been taken, in order.
use mathlib.Core.List.{Sublist, append-nil, append_assoc}
use mathlib.Core.List.{sublist-append_left}
use mathlib.Core.List.Sublist as Sublists
use mathlib.Core.Path.{subst}
use bosphor.Base.{
  ℕ, String, zero, suc, ◌+◌, ◌-◌, ◌≤◌, ◌≡◌, ◌≢◌, refl, sym, ap, ◌∙◌, Bool-cases, inl, inr, Option,
  none, some, List, [], ◌∷◌, ◌++◌, leb, All, coalesce, arith,
}
use bosphor.Base.Result.{Result, ok, err, ◌>>=◌}
use bosphor.Sui.Event.{SuiLzEvent, Transaction, Decoders}
use bosphor.Sui.Checkpoint.{
  State, Fetched, Pass, Outcome, and_then, process_transactions, process_checkpoint, visit_one,
  visit, backfill, rest_after, poll_from, poll, poll_all, init_cursor, run_checkpoint_poll,
  write_cursor,
}
use bosphor.Sui.Checkpoint.Delivered.{Delivers, received_in, window, process_transactions-Delivers}

-- The ledger service has every checkpoint up to the current one.
abbrev pub IsComplete : Pass → Type 0
IsComplete pass = (seq : ℕ) → pass.fetch seq ≢ Fetched.missing

module _ (decoders : Decoders) (lz_package_id : String) (chain : ℕ → List Transaction) (start : ℕ)
    (before : List SuiLzEvent) where
  -- All events of the checkpoints behind `start` up to the cursor were taken, behind those `before`.
  pub record CaughtUpTo (c : ℕ) (s : State) : Type 0 where
    pub cursor : s.cursor ≡ some c
    pub reached : start ≤ c
    pub taken :
        Sublist (before ++ window decoders lz_package_id chain (suc start) (c - start)) s.delivered

  abbrev pub Caught : State → Type 0
  Caught s = (c : ℕ) × CaughtUpTo c s

  window-suc :
      (n seq : ℕ)
      → window decoders lz_package_id chain seq (suc n)
        ≡ window decoders lz_package_id chain seq n
          ++ received_in decoders lz_package_id (chain (seq + n))
  window-suc zero seq =
      append-nil (received_in decoders lz_package_id (chain seq))
      ∙ ap (λ k. received_in decoders lz_package_id (chain k)) (omega arith)
  window-suc (suc n) seq =
      let first = received_in decoders lz_package_id (chain seq) in
      let index : suc seq + n ≡ seq + suc n = omega arith in
      ap (◌++◌ first) (window-suc n (suc seq))
      ∙ sym (
          append_assoc first (window decoders lz_package_id chain (suc seq) n)
            (received_in decoders lz_package_id (chain (suc seq + n))))
      ∙ ap
          (λ k.
            (first ++ window decoders lz_package_id chain (suc seq) n)
            ++ received_in decoders lz_package_id (chain k))
          index

  CaughtUpTo-grow :
      (c : ℕ) (s t : State) (extra : List SuiLzEvent)
      → t.delivered ≡ s.delivered ++ extra
      → t.cursor ≡ s.cursor
      → CaughtUpTo c s
      → CaughtUpTo c t
  CaughtUpTo-grow c s t extra d e h = record {
    cursor = e ∙ h.cursor;
    reached = h.reached;
    taken =
        subst (Sublist _) (sym d) (Sublists.trans h.taken (sublist-append_left s.delivered extra));
  }

  CaughtUpTo-next :
      (c : ℕ) (s t : State)
      → t.delivered ≡ s.delivered ++ received_in decoders lz_package_id (chain (suc c))
      → CaughtUpTo c s
      → CaughtUpTo (suc c) (write_cursor (suc c) t)
  CaughtUpTo-next c s t d h = record {
    cursor = refl;
    reached = omega (arith, h.reached);
    taken =
        let news = received_in decoders lz_package_id (chain (suc c)) in
        let olds = window decoders lz_package_id chain (suc start) (c - start) in
        let count : suc c - start ≡ suc (c - start) = omega (arith, h.reached) in
        let last : suc start + (c - start) ≡ suc c = omega (arith, h.reached) in
        let all : before ++ window decoders lz_package_id chain (suc start) (suc c - start)
            ≡ (before ++ olds) ++ news =
          ap (λ k. before ++ window decoders lz_package_id chain (suc start) k) count
          ∙ ap (◌++◌ before) (window-suc (c - start) (suc start))
          ∙ ap (λ k. before ++ (olds ++ received_in decoders lz_package_id (chain k))) last
          ∙ sym (append_assoc before olds news) in
        subst (Sublist _) (sym d) (
          subst (λ xs. Sublist xs (s.delivered ++ news)) (sym all)
            (Sublists.append h.taken (Sublists.refl news)));
  }

  -- What one visit does to the progress: it goes on by one unless it threw.
  abbrev Advances : ℕ → Outcome → Type 0
  Advances c (err thrown, t) = CaughtUpTo c t
  Advances c (ok nothing, t) = CaughtUpTo (suc c) t

  Advances-delivered :
      (c : ℕ) (s : State) (o : Outcome)
      → Delivers (received_in decoders lz_package_id (chain (suc c))) s o
      → CaughtUpTo c s
      → Advances c (and_then o (λ t. (ok tt, write_cursor (suc c) t)))
  Advances-delivered c s (err thrown, t) d h = CaughtUpTo-grow c s t d.extra d.delivered d.cursor h
  Advances-delivered c s (ok nothing, t) d h =
      CaughtUpTo-next c s t (d.delivered ∙ ap (◌++◌ s.delivered) (d.full refl)) h

  Caught-and_then :
      (c : ℕ) (o : Outcome) (next : State → Outcome)
      → Advances c o
      → ((t : State) → CaughtUpTo (suc c) t → Caught (next t).1)
      → Caught (and_then o next).1
  Caught-and_then c (err thrown, t) next h k = (c, h)
  Caught-and_then c (ok nothing, t) next h k = k t h

  module _ (pass : Pass) (complete : IsComplete pass) where
    visit_one-Advances :
        (answer : Fetched) (c : ℕ) (s : State)
        → answer ≢ Fetched.missing
        → CaughtUpTo c s
        → Advances c (visit_one decoders lz_package_id chain pass answer (suc c) s)
    unfolding visit_one process_checkpoint
    visit_one-Advances Fetched.failed c s e h = h
    visit_one-Advances Fetched.missing c s e h = absurd (e refl)
    visit_one-Advances Fetched.served c s e h =
        Advances-delivered c s
          (process_transactions decoders lz_package_id chain pass (chain (suc c)) s)
          (process_transactions-Delivers decoders lz_package_id chain pass (chain (suc c)) s) h

    visit-Caught :
        (n c : ℕ) (s : State)
        → CaughtUpTo c s
        → Caught (visit decoders lz_package_id chain pass n (suc c) s).1
    unfolding visit
    visit-Caught zero c s h = (c, h)
    visit-Caught (suc n) c s h = elim (Bool-cases (pass.stopped_at (suc c))) [
      | inl stops ↦ rw (stops) (c, h)
      | inr goes_on ↦ rw (goes_on) (
          Caught-and_then c
            (visit_one decoders lz_package_id chain pass (pass.fetch (suc c)) (suc c) s)
            (λ t. visit decoders lz_package_id chain pass n (suc (suc c)) t)
            (visit_one-Advances (pass.fetch (suc c)) c s (complete (suc c)) h)
            (λ t k. visit-Caught n (suc c) t k))
    ]

    rest_after-Caught :
        (o : Outcome) → Caught o.1 → Caught (rest_after decoders lz_package_id chain pass o)
    rest_after-Caught (ok nothing, t) (c, h) =
        (c, record { cursor = h.cursor; reached = h.reached; taken = h.taken })
    rest_after-Caught (err thrown, t) (c, h) = elim (Bool-cases pass.is_stopped) [
      | inl stops ↦ rw (stops) (c, h)
      | inr goes_on ↦
          rw (goes_on) (c, record { cursor = h.cursor; reached = h.reached; taken = h.taken })
    ]

    backfill-Caught :
        (current : Option ℕ) (c : ℕ) (s : State)
        → CaughtUpTo c s
        → Caught (backfill decoders lz_package_id chain pass current c s).1
    unfolding backfill
    backfill-Caught none c s h = (c, h)
    backfill-Caught (some current) c s h = elim (Bool-cases (leb current c)) [
      | inl up_to_date ↦ rw (up_to_date) (c, h)
      | inr behind ↦ rw (behind) (visit-Caught (current - c) c s h)
    ]

    poll_from-Caught :
        (c : ℕ) (s : State)
        → CaughtUpTo c s
        → Caught (poll_from decoders lz_package_id chain pass (some c) s)
    unfolding poll_from
    poll_from-Caught c s h =
        rest_after-Caught (backfill decoders lz_package_id chain pass pass.current c s)
          (backfill-Caught pass.current c s h)

    poll-Caught : (s : State) → Caught s → Caught (poll decoders lz_package_id chain pass s)
    unfolding poll
    poll-Caught s (c, h) =
        subst (λ cursor. Caught (poll_from decoders lz_package_id chain pass cursor s))
          (sym h.cursor) (poll_from-Caught c s h)

  poll_all-Caught :
      (passes : List Pass) (s : State)
      → All IsComplete passes
      → Caught s
      → Caught (poll_all decoders lz_package_id chain passes s)
  unfolding poll_all
  poll_all-Caught [] s complete h = h
  poll_all-Caught (pass ∷ passes) s (complete, rest) h =
      poll_all-Caught passes (poll decoders lz_package_id chain pass s) rest
        (poll-Caught pass complete s h)

  CaughtUpTo-start : (s : State) → s.cursor ≡ some start → s.delivered ≡ before → CaughtUpTo start s
  CaughtUpTo-start s e d = record {
    cursor = e;
    reached = omega arith;
    taken =
        let none_yet : start - start ≡ 0 = omega arith in
        let all : before ++ window decoders lz_package_id chain (suc start) (start - start)
            ≡ s.delivered =
          ap (λ n. before ++ window decoders lz_package_id chain (suc start) n) none_yet
          ∙ append-nil before
          ∙ sym d in
        subst (λ xs. Sublist xs s.delivered) (sym all) (Sublists.refl s.delivered);
  }

-- How a poll goes on from the checkpoint that it starts at.
abbrev pub GoesOn :
    Decoders → String → (ℕ → List Transaction) → State → Option ℕ → Result Unit State → Type 0
GoesOn decoders lz_package_id chain s none r = r ≡ err tt
GoesOn decoders lz_package_id chain s (some start) r =
    (t : State) × (r ≡ ok t) × Caught decoders lz_package_id chain start s.delivered t

init_cursor-GoesOn :
    (decoders : Decoders) (lz_package_id : String) (chain : ℕ → List Transaction)
    (cursor first : Option ℕ) (passes : List Pass) (s : State)
    → s.cursor ≡ cursor
    → All IsComplete passes
    → GoesOn decoders lz_package_id chain s (coalesce cursor first) (
        init_cursor decoders lz_package_id chain cursor first s >>= λ t.
        ok (poll_all decoders lz_package_id chain passes t))
unfolding init_cursor
init_cursor-GoesOn decoders lz_package_id chain (some c) first passes s e complete =
    let t = record s { backoff_ms = 1000 } in
    (
      poll_all decoders lz_package_id chain passes t,
      refl,
      poll_all-Caught decoders lz_package_id chain c s.delivered passes t complete
          (c, CaughtUpTo-start decoders lz_package_id chain c s.delivered t e refl),
    )
init_cursor-GoesOn decoders lz_package_id chain none none passes s e complete = refl
init_cursor-GoesOn decoders lz_package_id chain none (some c) passes s e complete =
    let t = record (write_cursor c s) { backoff_ms = 1000 } in
    (
      poll_all decoders lz_package_id chain passes t,
      refl,
      poll_all-Caught decoders lz_package_id chain c s.delivered passes t complete
          (c, CaughtUpTo-start decoders lz_package_id chain c s.delivered t refl refl),
    )

-- Whatever fails or is stopped in the passes: if the ledger service has every checkpoint, then the
-- cursor never falls behind the first one, and the callback has taken all events of the checkpoints
-- behind that up to the last cursor, in their order, among whatever retried checkpoints made it take
-- twice. Without a cursor and a current checkpoint the poll throws.
pub run_checkpoint_poll-GoesOn :
    (decoders : Decoders) (lz_package_id : String) (chain : ℕ → List Transaction) (first : Option ℕ)
    (passes : List Pass) (s : State)
    → All IsComplete passes
    → GoesOn decoders lz_package_id chain s
        (coalesce s.cursor first)
        (run_checkpoint_poll decoders lz_package_id chain first passes s)
unfolding run_checkpoint_poll
run_checkpoint_poll-GoesOn decoders lz_package_id chain first passes s complete =
    init_cursor-GoesOn decoders lz_package_id chain s.cursor first passes s refl complete
