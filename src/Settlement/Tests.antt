-- ===== src/Settlement/Tests.antt =====
-- Whole dollars, and a ledger with a completion and a skip.
use bosphor.Base.{
  ℕ, zero, suc, ◌+◌, ◌-◌, ◌*◌, ◌/◌, ◌^◌, ◌≤◌, ◌≡◌, refl, Bool, true, false, not, some, List, [],
  ◌∷◌, if◌then◌else◌, leb, arith,
}
use native.Mathlib.Nat.{mul-add}
use bosphor.Base.Result.{ok}
use bosphor.Processor.World.{OriginToken, BreakEvenCheck}
use bosphor.Settlement.Dollars.{ℤ, Dollars, IsRounded}
use bosphor.Settlement.Guard.{BreakEvenInputs, BreakEvenDecision, evaluate_break_even, check}
use bosphor.Settlement.PnlLedger.{PnlEntry, PnlStatus, summary}
use bosphor.Settlement.Covers.{Approves, check-Covers}
use bosphor.Settlement.NeverLose.{Booking, book, book-NeverLoses}

abbrev pub minus : ℕ → ℤ
minus zero = ℤ.pos 0
minus (suc n) = ℤ.negsuc n

abbrev pub between : ℕ → ℕ → ℤ
between a b = if leb b a then ℤ.pos (a - b) else minus (b - a)

abbrev pub plus_of : ℤ → ℤ → ℤ
plus_of (ℤ.pos a) (ℤ.pos b) = ℤ.pos (a + b)
plus_of (ℤ.pos a) (ℤ.negsuc b) = between a (suc b)
plus_of (ℤ.negsuc a) (ℤ.pos b) = between b (suc a)
plus_of (ℤ.negsuc a) (ℤ.negsuc b) = ℤ.negsuc (suc (a + b))

abbrev pub less_of : ℤ → ℤ → ℤ
less_of (ℤ.pos a) (ℤ.pos b) = between a b
less_of (ℤ.pos a) (ℤ.negsuc b) = ℤ.pos (a + suc b)
less_of (ℤ.negsuc a) (ℤ.pos b) = ℤ.negsuc (a + b)
less_of (ℤ.negsuc a) (ℤ.negsuc b) = between b a

abbrev pub signed : (ℕ → ℕ → ℕ) → ℤ → ℤ → ℤ
signed f (ℤ.pos a) (ℤ.pos b) = ℤ.pos (f a b)
signed f (ℤ.pos a) (ℤ.negsuc b) = minus (f a (suc b))
signed f (ℤ.negsuc a) (ℤ.pos b) = minus (f (suc a) b)
signed f (ℤ.negsuc a) (ℤ.negsuc b) = ℤ.pos (f (suc a) (suc b))

abbrev pub at_most : ℤ → ℤ → Bool
at_most (ℤ.pos a) (ℤ.pos b) = leb a b
at_most (ℤ.pos a) (ℤ.negsuc b) = false
at_most (ℤ.negsuc a) (ℤ.pos b) = true
at_most (ℤ.negsuc a) (ℤ.negsuc b) = leb b a

abbrev pub whole : Dollars ℤ
whole = record {
  of_bigint = λ n. n;
  nought = ℤ.pos 0;
  one = ℤ.pos 1;
  infinity = ℤ.pos (10 ^ 18);
  add = plus_of;
  sub = less_of;
  mul = signed (λ a b. a * b);
  div = signed (λ a b. a / b);
  le = at_most;
  lt = λ a b. not (at_most b a);
  is_finite = λ a. true;
}

at_most_trans : (a b c : ℤ) → at_most a b ≡ true → at_most b c ≡ true → at_most a c ≡ true
at_most_trans (ℤ.pos a) (ℤ.pos b) (ℤ.pos c) h k = ground (arith, h, k)
at_most_trans (ℤ.pos a) (ℤ.pos b) (ℤ.negsuc c) h k = k
at_most_trans (ℤ.pos a) (ℤ.negsuc b) c h k = cc h
at_most_trans (ℤ.negsuc a) (ℤ.pos b) (ℤ.pos c) h k = refl
at_most_trans (ℤ.negsuc a) (ℤ.pos b) (ℤ.negsuc c) h k = cc k
at_most_trans (ℤ.negsuc a) (ℤ.negsuc b) (ℤ.pos c) h k = refl
at_most_trans (ℤ.negsuc a) (ℤ.negsuc b) (ℤ.negsuc c) h k = ground (arith, h, k)

scaled :
    (a : ℤ)
    → at_most (ℤ.pos 0) a ≡ true
    → at_most (ℤ.pos 0) (signed (λ x y. x / y) a (ℤ.pos (10 ^ 9))) ≡ true
scaled (ℤ.pos a) h = ground arith
scaled (ℤ.negsuc a) h = cc h

product :
    (a p : ℤ)
    → at_most (ℤ.pos 0) a ≡ true
    → true ≡ true
    → at_most p (ℤ.pos 0) ≡ false
    → at_most (ℤ.pos 0) (signed (λ x y. x * y) a p) ≡ true
product (ℤ.pos a) (ℤ.pos p) h f k = ground arith
product (ℤ.pos a) (ℤ.negsuc p) h f k = cc k
product (ℤ.negsuc a) p h f k = cc h

total :
    (a b : ℤ)
    → at_most (ℤ.pos 0) a ≡ true
    → at_most (ℤ.pos 0) b ≡ true
    → at_most (ℤ.pos 0) (plus_of a b) ≡ true
total (ℤ.pos a) (ℤ.pos b) h k = ground arith
total (ℤ.pos a) (ℤ.negsuc b) h k = cc k
total (ℤ.negsuc a) b h k = cc h

growth :
    (c m : ℤ)
    → at_most (ℤ.pos 0) c ≡ true
    → at_most (ℤ.pos 0) m ≡ true
    → true ≡ true
    → at_most c (signed (λ x y. x * y) c (plus_of (ℤ.pos 1) m)) ≡ true
growth (ℤ.pos c) (ℤ.pos m) h k f =
    let grows : c ≤ c * (1 + m) = omega (arith, mul-add c 1 m) in ground (arith, grows)
growth (ℤ.pos c) (ℤ.negsuc m) h k f = cc k
growth (ℤ.negsuc c) m h k f = cc h

difference : (a b : ℤ) → at_most b a ≡ true → not (at_most (ℤ.pos 0) (less_of a b)) ≡ false
difference (ℤ.pos a) (ℤ.pos b) h = ground (arith, h)
difference (ℤ.pos a) (ℤ.negsuc b) h = ground arith
difference (ℤ.negsuc a) (ℤ.pos b) h = cc h
difference (ℤ.negsuc a) (ℤ.negsuc b) h = ground (arith, h)

pub whole-IsRounded : IsRounded whole
whole-IsRounded = record {
  le_trans = at_most_trans;
  of_bigint_nonneg = λ n. ground arith;
  scaled_nonneg = scaled;
  mul_nonneg = product;
  add_nonneg = total;
  mul_grows = growth;
  sub_nonneg = difference;
}

-- 10 SOL against 2 WAL and 3 SUI at a dollar each, with a margin of once the cost.
abbrev pub inputs : BreakEvenInputs whole
inputs = record {
  escrow_native = ℤ.pos (10 * 10 ^ 9);
  origin_token = OriginToken.sol;
  wal_cost_frost = ℤ.pos (2 * 10 ^ 9);
  return_lz_fee_mist = ℤ.pos (2 * 10 ^ 9);
  sui_gas_mist = ℤ.pos (10 ^ 9);
  min_margin_ratio = ℤ.pos 1;
  prices = λ token. some (ℤ.pos 1);
}

abbrev pub decision : BreakEvenDecision whole
decision = record {
  proceed = true;
  escrow_usd = ℤ.pos 10;
  cost_usd = ℤ.pos 5;
  required_usd = ℤ.pos 10;
  margin_usd = ℤ.pos 5;
  margin_ratio = ℤ.pos 1;
}

pub decided : evaluate_break_even whole inputs ≡ ok decision
unfolding evaluate_break_even
decided = refl

abbrev bookings : List (Booking whole)
bookings =
    Booking.completion 1 "i1" decision
    ∷ Booking.skip 2 "i2"
    ∷ Booking.completion 3 "i1" decision
    ∷ []

decision-Approves : Approves whole decision
decision-Approves = record {
  inputs = inputs;
  evaluated = decided;
  proceeds = refl;
  margin = refl;
  finite = refl;
}

book-NeverLoses_example :
    ((summary whole (book whole bookings [])).negative_count ≡ 0)
    × ((summary whole (book whole bookings [])).completed
          + (summary whole (book whole bookings [])).skipped
        ≡ (summary whole (book whole bookings [])).count)
book-NeverLoses_example =
    book-NeverLoses whole bookings whole-IsRounded
      (decision-Approves, (tt, (decision-Approves, tt)))

abbrev question : BreakEvenCheck
question = record {
  escrow_native = 10 * 10 ^ 9;
  origin_token = OriginToken.sol;
  size_bytes = 100;
  epochs = 2;
  return_lz_fee_mist = 2 * 10 ^ 9;
  sui_gas_mist = 10 ^ 9;
}

answered :
    check whole
      (ok (λ token. some (ℤ.pos 1)))
      (λ size epochs. ok (ℤ.pos (epochs * 10 ^ 9)))
      (ℤ.pos 1)
      question
    ≡ ok decision
unfolding check
answered = refl

check-Covers_example :
    (whole.le decision.cost_usd decision.escrow_usd ≡ true)
    × (whole.lt (whole.sub decision.escrow_usd decision.cost_usd) whole.nought ≡ false)
check-Covers_example =
    check-Covers whole (ok (λ token. some (ℤ.pos 1))) (λ size epochs. ok (ℤ.pos (epochs * 10 ^ 9)))
      (ℤ.pos 1) question decision whole-IsRounded refl refl answered refl

abbrev booked : PnlEntry whole
booked = record {
  intent_id = "i1";
  status = PnlStatus.skipped;
  collected_usd = ℤ.pos 0;
  spent_usd = ℤ.pos 0;
  net_usd = ℤ.pos 0;
  timestamp_ms = 1;
}
