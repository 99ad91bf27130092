-- ===== src/Sui/Checkpoint/CatchUp.antt =====
-- A pass without failures brings the cursor up to the current checkpoint.
use mathlib.Core.List.{append-nil, append_assoc}
use mathlib.Core.Path.{subst}
use bosphor.Base.{
  ℕ, String, zero, suc, ◌+◌, ◌-◌, ◌<◌, ◌≤◌, ◌≡◌, refl, sym, ap, ◌∙◌, Bool-cases, inl, inr, true,
  false, Option, none, some, List, [], ◌∷◌, ◌++◌, leb, or_else, length, arith,
}
use bosphor.Base.Result.{Result, ok, err}
use bosphor.Sui.Event.{SuiLzEvent, RawEvent, Transaction, Decoders, read_event}
use bosphor.Sui.Checkpoint.{
  State, Fetched, Pass, Outcome, and_then, deliver, process_event, process_events,
  process_transactions, process_checkpoint, visit_one, visit, backfill, rest_after, poll_from, poll,
  write_cursor,
}
use bosphor.Sui.Checkpoint.Delivered.{Delivers, received_in, window, process_transactions-Delivers}

-- No call of the pass fails, `stop` is not called, and `latest` is the current checkpoint.
pub record IsSmooth (latest : ℕ) (pass : Pass) : Type 0 where
  pub latest_read : pass.current ≡ some latest
  pub served : (seq : ℕ) → pass.fetch seq ≡ Fetched.served
  pub takes : (n : ℕ) → pass.takes n ≡ true
  pub goes_on : (seq : ℕ) → pass.stopped_at seq ≡ false

-- A reading that does not throw.
abbrev pub IsOk : {A : Type 0} → Result String A → Type 0
IsOk {A} r = (value : A) × (r ≡ ok value)

module _ (decoders : Decoders) (lz_package_id : String) where
  -- No event of a transaction, or of several, holds a number that `BigInt` cannot read.
  abbrev pub AreRead : String → List RawEvent → Type 0
  AreRead digest [] = Unit
  AreRead digest (raw ∷ events) =
      IsOk (read_event decoders lz_package_id digest raw) × AreRead digest events

  abbrev pub AllRead : List Transaction → Type 0
  AllRead [] = Unit
  AllRead (tx ∷ transactions) =
      AreRead (or_else tx.digest "") (or_else tx.events []) × AllRead transactions

-- A step that does not throw.
abbrev IsFine : Outcome → Type 0
IsFine o = o.0 ≡ ok tt

IsFine-and_then :
    (o : Outcome) (next : State → Outcome)
    → IsFine o
    → ((t : State) → IsFine (next t))
    → IsFine (and_then o next)
IsFine-and_then (err thrown, s) next h k = cc h
IsFine-and_then (ok nothing, s) next h k = k s

module _ (decoders : Decoders) (lz_package_id : String) (chain : ℕ → List Transaction) (pass : Pass)
    (first latest : ℕ)
    (readable : (seq : ℕ) → first < seq → seq ≤ latest → AllRead decoders lz_package_id (chain seq))
    (smooth : IsSmooth latest pass) where
  deliver-IsFine :
      (event : SuiLzEvent) (s : State) → IsFine (deliver decoders lz_package_id chain pass event s)
  unfolding deliver
  deliver-IsFine event s = rw (smooth.takes (length s.delivered)) refl

  process_event-IsFine :
      (read : Option SuiLzEvent) (s : State)
      → IsFine (process_event decoders lz_package_id chain pass (ok read) s)
  unfolding process_event
  process_event-IsFine none s = refl
  process_event-IsFine (some event) s = deliver-IsFine event s

  process_events-IsFine :
      (digest : String) (events : List RawEvent) (s : State)
      → AreRead decoders lz_package_id digest events
      → IsFine (process_events decoders lz_package_id chain pass digest events s)
  unfolding process_events
  process_events-IsFine digest [] s r = refl
  process_events-IsFine digest (raw ∷ events) s ((read, e), rest) =
      IsFine-and_then
        (process_event decoders lz_package_id chain pass
          (read_event decoders lz_package_id digest raw) s)
        (λ t. process_events decoders lz_package_id chain pass digest events t)
        (subst (λ r. IsFine (process_event decoders lz_package_id chain pass r s)) (sym e)
          (process_event-IsFine read s))
        (λ t. process_events-IsFine digest events t rest)

  process_transactions-IsFine :
      (transactions : List Transaction) (s : State)
      → AllRead decoders lz_package_id transactions
      → IsFine (process_transactions decoders lz_package_id chain pass transactions s)
  unfolding process_transactions
  process_transactions-IsFine [] s r = refl
  process_transactions-IsFine (tx ∷ transactions) s (here, rest) =
      IsFine-and_then
        (process_events decoders lz_package_id chain pass (or_else tx.digest "")
          (or_else tx.events []) s)
        (λ t. process_transactions decoders lz_package_id chain pass transactions t)
        (process_events-IsFine (or_else tx.digest "") (or_else tx.events []) s here)
        (λ t. process_transactions-IsFine transactions t rest)

  -- A step from a state that brings the cursor to `c` and takes just these events.
  record Reaches (c : ℕ) (news : List SuiLzEvent) (s : State) (o : Outcome) : Type 0 where
    fine : IsFine o
    cursor : o.1.cursor ≡ some c
    delivered : o.1.delivered ≡ s.delivered ++ news

  Reaches-delivered :
      (c : ℕ) (news : List SuiLzEvent) (s : State) (o : Outcome)
      → IsFine o
      → Delivers news s o
      → Reaches c news s (and_then o (λ t. (ok tt, write_cursor c t)))
  Reaches-delivered c news s (err thrown, t) h d = cc h
  Reaches-delivered c news s (ok nothing, t) h d = record {
    fine = refl;
    cursor = refl;
    delivered = d.delivered ∙ ap (◌++◌ s.delivered) (d.full refl);
  }

  Reaches-and_then :
      (c c' : ℕ) (news news' : List SuiLzEvent) (s : State) (o : Outcome) (next : State → Outcome)
      → Reaches c news s o
      → ((t : State) → t.cursor ≡ some c → Reaches c' news' t (next t))
      → Reaches c' (news ++ news') s (and_then o next)
  Reaches-and_then c c' news news' s (err thrown, t) next h k = cc h.fine
  Reaches-and_then c c' news news' s (ok nothing, t) next h k =
      let m = k t h.cursor in
      record {
        fine = m.fine;
        cursor = m.cursor;
        delivered =
            m.delivered ∙ ap (λ xs. xs ++ news') h.delivered ∙ append_assoc s.delivered news news';
      }

  visit_one-Reaches :
      (c : ℕ) (s : State)
      → first ≤ c
      → suc c ≤ latest
      → Reaches
          (suc c)
          (received_in decoders lz_package_id (chain (suc c)))
          s
          (visit_one decoders lz_package_id chain pass (pass.fetch (suc c)) (suc c) s)
  unfolding visit_one process_checkpoint
  visit_one-Reaches c s low high = rw (smooth.served (suc c)) (
      Reaches-delivered (suc c) _ s
        (process_transactions decoders lz_package_id chain pass (chain (suc c)) s)
        (process_transactions-IsFine (chain (suc c)) s (readable (suc c) (omega arith) high))
        (process_transactions-Delivers decoders lz_package_id chain pass (chain (suc c)) s))

  visit-Reaches :
      (n c c' : ℕ) (s : State)
      → s.cursor ≡ some c
      → c + n ≡ c'
      → first ≤ c
      → c' ≤ latest
      → Reaches c'
          (window decoders lz_package_id chain (suc c) n)
          s
          (visit decoders lz_package_id chain pass n (suc c) s)
  unfolding visit
  visit-Reaches zero c c' s e f low high = record {
    fine = refl;
    cursor = e ∙ ap some (omega arith);
    delivered = sym (append-nil s.delivered);
  }
  visit-Reaches (suc n) c c' s e f low high = rw (smooth.goes_on (suc c)) (
      Reaches-and_then (suc c) c' (received_in decoders lz_package_id (chain (suc c)))
        (window decoders lz_package_id chain (suc (suc c)) n) s
        (visit_one decoders lz_package_id chain pass (pass.fetch (suc c)) (suc c) s)
        (λ t. visit decoders lz_package_id chain pass n (suc (suc c)) t)
        (visit_one-Reaches c s low (omega arith))
        (λ t k. visit-Reaches n (suc c) c' t k (omega arith) (omega arith) high))

  backfill-Reaches :
      (c : ℕ) (s : State)
      → s.cursor ≡ some c
      → c ≤ latest
      → first ≤ c
      → Reaches latest
          (window decoders lz_package_id chain (suc c) (latest - c))
          s
          (backfill decoders lz_package_id chain pass (some latest) c s)
  unfolding backfill
  backfill-Reaches c s e h low = elim (Bool-cases (leb latest c)) [
    | inl up_to_date ↦
        let same : latest ≡ c = ground (arith, up_to_date, h) in
        let none_left : latest - c ≡ 0 = omega arith in
        rw (up_to_date, none_left)
          (record {
            fine = refl;
            cursor = e ∙ ap some (sym same);
            delivered = sym (append-nil s.delivered);
          })
    | inr behind ↦
        rw (behind) (visit-Reaches (latest - c) c latest s e (omega (arith, h)) low (omega arith))
  ]

  rest_after-Reaches :
      (c : ℕ) (news : List SuiLzEvent) (s : State) (o : Outcome)
      → Reaches c news s o
      → ((rest_after decoders lz_package_id chain pass o).cursor ≡ some c)
        × ((rest_after decoders lz_package_id chain pass o).delivered ≡ s.delivered ++ news)
  rest_after-Reaches c news s (err thrown, t) h = cc h.fine
  rest_after-Reaches c news s (ok nothing, t) h = (h.cursor, h.delivered)

poll_from-some :
    (decoders : Decoders) (lz_package_id : String) (chain : ℕ → List Transaction) (pass : Pass)
    (c : ℕ) (s : State)
    → poll_from decoders lz_package_id chain pass (some c) s
      ≡ rest_after decoders lz_package_id chain pass
          (backfill decoders lz_package_id chain pass pass.current c s)
unfolding poll_from
poll_from-some decoders lz_package_id chain pass c s = refl

-- A turn of the poll in which no call fails and `stop` is not called brings the cursor up to the
-- current checkpoint and makes the callback take exactly the events in between, in order and once
-- each, if no event in between holds a number that cannot be read.
pub poll-CatchesUp :
    (decoders : Decoders) (lz_package_id : String) (chain : ℕ → List Transaction) (pass : Pass)
    (latest c : ℕ) (s : State)
    → ((seq : ℕ) → c < seq → seq ≤ latest → AllRead decoders lz_package_id (chain seq))
    → IsSmooth latest pass
    → s.cursor ≡ some c
    → c ≤ latest
    → ((poll decoders lz_package_id chain pass s).cursor ≡ some latest)
      × ((poll decoders lz_package_id chain pass s).delivered
          ≡ s.delivered ++ window decoders lz_package_id chain (suc c) (latest - c))
unfolding poll
poll-CatchesUp decoders lz_package_id chain pass latest c s readable smooth e h =
    subst
      (λ t.
        (t.cursor ≡ some latest)
        × (t.delivered ≡ s.delivered ++ window decoders lz_package_id chain (suc c) (latest - c)))
      (sym (
        ap (λ cursor. poll_from decoders lz_package_id chain pass cursor s) e
        ∙ poll_from-some decoders lz_package_id chain pass c s
        ∙ ap
            (λ current.
              rest_after decoders lz_package_id chain pass
                (backfill decoders lz_package_id chain pass current c s))
            smooth.latest_read))
      (rest_after-Reaches decoders lz_package_id chain pass c latest readable smooth latest
        (window decoders lz_package_id chain (suc c) (latest - c)) s
        (backfill decoders lz_package_id chain pass (some latest) c s)
        (backfill-Reaches decoders lz_package_id chain pass c latest readable smooth c s e h
          (omega arith)))
