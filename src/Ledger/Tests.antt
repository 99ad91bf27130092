-- ===== src/Ledger/Tests.antt =====
-- A backfill over one completed store that the ledger is owed.
use bosphor.Base.{◌≡◌, refl, none, some, [], ◌∷◌, true, is_some, arith, eq_iff}
use bosphor.Staged.Types.{Row, StagedState}
use bosphor.Staged.Store.{new_row}
use bosphor.Ledger.{Books, backfill, get, record_completed_store}
use bosphor.Ledger.Laws.{IsSound, backfill-IsSound}

abbrev owing : Row
owing = record (new_row "i1" 10) {
  state = StagedState.done;
  store_digest = some "d";
  walrus_object_id = some "o";
}

abbrev books : Books
books = record { ledger = []; table = owing ∷ [] }

abbrev swept : Books
swept = backfill "testnet" 50 100 (λ _. some none) (λ _. true) (λ _. true) books

recorded : is_some (get "i1" swept.ledger) ≡ true
unfolding backfill get record_completed_store
recorded = refl

backfill-IsSound_example : IsSound swept
backfill-IsSound_example =
    backfill-IsSound "testnet" 50 (λ _. some none) (λ _. true) (λ _. true) 100 books
      (record { once = tt; flagged = λ id r f l. ground (arith, eq_iff "i1" id) })
