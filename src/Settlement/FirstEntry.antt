-- ===== src/Settlement/FirstEntry.antt =====
-- The first entry of an intent stays.
use bosphor.Base.{
  String, ◌≡◌, Bool-cases, inl, inr, Option, none, some, List, [], ◌∷◌, ◌++◌, str_eq, not, ◌||◌,
}
use bosphor.Settlement.Dollars.{Dollars}
use bosphor.Settlement.PnlLedger.{
  PnlEntry, get_entry, keep_first, record_entry, record_completion, record_skip, completion_entry,
  skip_entry,
}
use bosphor.Settlement.NeverLose.{Booking, book_one, ledger_of, book}

module _ {W : Type 0} (usd : Dollars W) where
  get_entry-append :
      (id : String) (e : PnlEntry usd) (entries more : List (PnlEntry usd))
      → get_entry usd id entries ≡ some e
      → get_entry usd id (entries ++ more) ≡ some e
  unfolding get_entry
  get_entry-append id e [] more h = cc h
  get_entry-append id e (x ∷ entries) more h = elim (Bool-cases (str_eq x.intent_id id)) [
    | inl same ↦ rw (same) (rw (same) at h)
    | inr other ↦ rw (other) (get_entry-append id e entries more (rw (other) at h))
  ]

  keep_first-keeps :
      (new : PnlEntry usd) (o : Option (PnlEntry usd)) (id : String) (e : PnlEntry usd)
      (entries : List (PnlEntry usd))
      → get_entry usd id entries ≡ some e
      → get_entry usd id (keep_first usd new o entries).1 ≡ some e
  unfolding keep_first
  keep_first-keeps new none id e entries h = get_entry-append id e entries _ h
  keep_first-keeps new (some existing) id e entries h = h

  record_entry-keeps :
      (new : PnlEntry usd) (id : String) (e : PnlEntry usd) (entries : List (PnlEntry usd))
      → get_entry usd id entries ≡ some e
      → get_entry usd id (ledger_of usd (record_entry usd new entries) entries) ≡ some e
  unfolding record_entry
  record_entry-keeps new id e entries h =
      elim (Bool-cases
        (not (usd.is_finite new.collected_usd) || not (usd.is_finite new.spent_usd))) [
          | inl endless ↦ rw (endless) h
          | inr finite ↦
              rw (finite)
                (keep_first-keeps new (get_entry usd new.intent_id entries) id e entries h)
        ]

  book_one-keeps :
      (b : Booking usd) (id : String) (e : PnlEntry usd) (entries : List (PnlEntry usd))
      → get_entry usd id entries ≡ some e
      → get_entry usd id (ledger_of usd (book_one usd b entries) entries) ≡ some e
  unfolding record_completion record_skip
  book_one-keeps (Booking.completion now key d) id e entries h =
      record_entry-keeps (completion_entry usd now key d.escrow_usd d.cost_usd) id e entries h
  book_one-keeps (Booking.skip now key) id e entries h =
      record_entry-keeps (skip_entry usd now key) id e entries h

-- An entry that an intent has keeps every field, through whatever is booked later, for this intent or
-- another.
pub book-keeps :
    {W : Type 0} (usd : Dollars W) (bs : List (Booking usd)) (id : String) (e : PnlEntry usd)
    (entries : List (PnlEntry usd))
    → get_entry usd id entries ≡ some e
    → get_entry usd id (book usd bs entries) ≡ some e
book-keeps usd [] id e entries h = h
book-keeps usd (b ∷ bs) id e entries h =
    book-keeps usd bs id e (ledger_of usd (book_one usd b entries) entries)
      (book_one-keeps usd b id e entries h)
