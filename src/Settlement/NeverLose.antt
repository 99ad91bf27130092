-- ===== src/Settlement/NeverLose.antt =====
-- A completion that the guard let through never nets below zero.
use bosphor.Base.{
  ℕ, String, false, not, ◌||◌, ◌&&◌, ◌+◌, ◌≡◌, refl, Option, none, some, List, [], ◌∷◌, length, All,
  All-append, Bool-cases, inl, inr, arith,
}
use bosphor.Base.Result.{Result, ok, err}
use bosphor.Settlement.Dollars.{Dollars, IsRounded}
use bosphor.Settlement.Guard.{BreakEvenDecision}
use bosphor.Settlement.PnlLedger.{
  PnlEntry, PnlSummary, is_completed, get_entry, keep_first, record_entry, count_entry,
  count_entries, completion_entry, skip_entry, summary, record_completion, record_skip,
}
use bosphor.Settlement.Covers.{Approves, Approves-covers}

-- What the processor books: a completion with the amounts of the guard's decision, or a skip.
pub data Booking {W : Type 0} (usd : Dollars W) : Type 0 where
  completion : (now : ℕ) → (id : String) → (d : BreakEvenDecision usd) → Booking usd
  skip : (now : ℕ) → (id : String) → Booking usd

module _ {W : Type 0} (usd : Dollars W) where
  abbrev pub IsApproved : Booking usd → Type 0
  IsApproved (Booking.completion now id d) = Approves usd d
  IsApproved (Booking.skip now id) = Unit

  abbrev pub book_one :
      Booking usd → List (PnlEntry usd) → Result String (PnlEntry usd × List (PnlEntry usd))
  book_one (Booking.completion now id d) entries =
      record_completion usd now id d.escrow_usd d.cost_usd entries
  book_one (Booking.skip now id) entries = record_skip usd now id entries

  -- The ledger after a booking, which a throw leaves as it was.
  abbrev pub ledger_of :
      Result String (PnlEntry usd × List (PnlEntry usd)) → List (PnlEntry usd) → List (PnlEntry usd)
  ledger_of (err thrown) entries = entries
  ledger_of (ok (entry, after)) entries = after

  abbrev pub book : List (Booking usd) → List (PnlEntry usd) → List (PnlEntry usd)
  book [] entries = entries
  book (b ∷ bs) entries = book bs (ledger_of (book_one b entries) entries)

  -- A completed entry does not net below zero.
  abbrev Gains : PnlEntry usd → Type 0
  Gains e = (is_completed e.status && usd.lt e.net_usd usd.nought) ≡ false

  keep_first-Gains :
      (e : PnlEntry usd) (o : Option (PnlEntry usd)) (entries : List (PnlEntry usd))
      → (is_completed e.status && usd.lt (usd.sub e.collected_usd e.spent_usd) usd.nought) ≡ false
      → All Gains entries
      → All Gains (keep_first usd e o entries).1
  unfolding keep_first
  keep_first-Gains e none entries g h = All-append Gains entries _ h (g, tt)
  keep_first-Gains e (some existing) entries g h = h

  record_entry-Gains :
      (e : PnlEntry usd) (entries : List (PnlEntry usd))
      → (is_completed e.status && usd.lt (usd.sub e.collected_usd e.spent_usd) usd.nought) ≡ false
      → All Gains entries
      → All Gains (ledger_of (record_entry usd e entries) entries)
  unfolding record_entry
  record_entry-Gains e entries g h =
      elim (Bool-cases (not (usd.is_finite e.collected_usd) || not (usd.is_finite e.spent_usd))) [
        | inl endless ↦ rw (endless) h
        | inr finite ↦
            rw (finite) (keep_first-Gains e (get_entry usd e.intent_id entries) entries g h)
      ]

  book_one-Gains :
      (b : Booking usd) (entries : List (PnlEntry usd))
      → IsRounded usd
      → IsApproved b
      → All Gains entries
      → All Gains (ledger_of (book_one b entries) entries)
  unfolding record_completion record_skip
  book_one-Gains (Booking.completion now id d) entries rounded a h =
      record_entry-Gains (completion_entry usd now id d.escrow_usd d.cost_usd) entries
        (rounded.sub_nonneg d.escrow_usd d.cost_usd (Approves-covers usd rounded d a)) h
  book_one-Gains (Booking.skip now id) entries rounded a h =
      record_entry-Gains (skip_entry usd now id) entries refl h

  book-Gains :
      (bs : List (Booking usd)) (entries : List (PnlEntry usd))
      → IsRounded usd
      → All IsApproved bs
      → All Gains entries
      → All Gains (book bs entries)
  book-Gains [] entries rounded a h = h
  book-Gains (b ∷ bs) entries rounded (a, as_) h =
      book-Gains bs (ledger_of (book_one b entries) entries) rounded as_
        (book_one-Gains b entries rounded a h)

  count_entries-Gains :
      (entries : List (PnlEntry usd)) (t : PnlSummary usd)
      → All Gains entries
      → ((count_entries usd entries t).negative_count ≡ t.negative_count)
        × ((count_entries usd entries t).completed + (count_entries usd entries t).skipped
            ≡ length entries + (t.completed + t.skipped))
        × ((count_entries usd entries t).count ≡ t.count)
  unfolding count_entries
  count_entries-Gains [] t h = (refl, omega arith, refl)
  count_entries-Gains (e ∷ entries) t (g, h) =
      let (n, c, k) = count_entries-Gains entries (count_entry usd e t) h in
      (ground (arith, n, g), ground (arith, c), k)

-- However the processor books from an empty ledger, intents repeated or amounts refused: if rounding
-- keeps the order and each completion carries a decision of the guard to go on, with a margin that is
-- finite and not negative, then no entry counts as a loss, and every entry counts as completed or
-- as skipped.
pub book-NeverLoses :
    {W : Type 0} (usd : Dollars W) (bs : List (Booking usd))
    → IsRounded usd
    → All (IsApproved usd) bs
    → ((summary usd (book usd bs [])).negative_count ≡ 0)
      × ((summary usd (book usd bs [])).completed + (summary usd (book usd bs [])).skipped
          ≡ (summary usd (book usd bs [])).count)
unfolding summary
book-NeverLoses usd bs rounded a =
    let (n, c, k) =
      count_entries-Gains usd (book usd bs []) _ (book-Gains usd bs [] rounded a tt) in
    (n, omega (arith, c, k))
