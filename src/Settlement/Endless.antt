-- ===== src/Settlement/Endless.antt =====
-- The laws of `IsRounded` where amounts may be infinite and sums and products may be no number, as
-- with doubles: whole amounts, infinity, and NaN.
use bosphor.Base.{
  ℕ, ◌+◌, ◌-◌, ◌*◌, ◌/◌, ◌^◌, ◌≤◌, ◌≡◌, refl, Bool, true, false, if◌then◌else◌, leb, ltb, ◌==◌,
  arith,
}
use native.Mathlib.Nat.{mul-add}
use bosphor.Settlement.Dollars.{ℤ, Dollars, IsRounded}

data Amount : Type 0 where
  amount : ℕ → Amount
  endless nan : Amount

abbrev of_bigint : ℤ → Amount
of_bigint (ℤ.pos n) = amount n
of_bigint (ℤ.negsuc n) = nan

abbrev add : Amount → Amount → Amount
add (amount a) (amount b) = amount (a + b)
add (amount a) endless = endless
add endless (amount b) = endless
add endless endless = endless
add nan b = nan
add (amount a) nan = nan
add endless nan = nan

abbrev sub : Amount → Amount → Amount
sub (amount a) (amount b) = if leb b a then amount (a - b) else nan
sub endless (amount b) = endless
sub endless endless = nan
sub (amount a) endless = nan
sub nan b = nan
sub (amount a) nan = nan
sub endless nan = nan

abbrev unless_zero : ℕ → Amount
unless_zero a = if a == 0 then nan else endless

abbrev mul : Amount → Amount → Amount
mul (amount a) (amount b) = amount (a * b)
mul (amount a) endless = unless_zero a
mul endless (amount b) = unless_zero b
mul endless endless = endless
mul nan b = nan
mul (amount a) nan = nan
mul endless nan = nan

abbrev div : Amount → Amount → Amount
div (amount a) (amount b) = if b == 0 then unless_zero a else amount (a / b)
div (amount a) endless = amount 0
div endless (amount b) = endless
div endless endless = nan
div nan b = nan
div (amount a) nan = nan
div endless nan = nan

abbrev le : Amount → Amount → Bool
le (amount a) (amount b) = leb a b
le (amount a) endless = true
le endless endless = true
le endless (amount b) = false
le nan b = false
le (amount a) nan = false
le endless nan = false

abbrev lt : Amount → Amount → Bool
lt (amount a) (amount b) = ltb a b
lt (amount a) endless = true
lt endless b = false
lt nan b = false
lt (amount a) nan = false

abbrev is_finite : Amount → Bool
is_finite (amount a) = true
is_finite endless = false
is_finite nan = false

abbrev amounts : Dollars Amount
amounts = record {
  of_bigint = of_bigint;
  nought = amount 0;
  one = amount 1;
  infinity = endless;
  add = add;
  sub = sub;
  mul = mul;
  div = div;
  le = le;
  lt = lt;
  is_finite = is_finite;
}

le_trans : (a b c : Amount) → le a b ≡ true → le b c ≡ true → le a c ≡ true
le_trans a b c h k = ground arith

scaled : (a : Amount) → le (amount 0) a ≡ true → le (amount 0) (div a (amount (10 ^ 9))) ≡ true
scaled (amount a) h = ground arith
scaled endless h = refl
scaled nan h = cc h

product :
    (a p : Amount)
    → le (amount 0) a ≡ true
    → is_finite p ≡ true
    → le p (amount 0) ≡ false
    → le (amount 0) (mul a p) ≡ true
product a (amount p) h f k = ground arith
product a endless h f k = cc f
product a nan h f k = cc f

total :
    (a b : Amount)
    → le (amount 0) a ≡ true
    → le (amount 0) b ≡ true
    → le (amount 0) (add a b) ≡ true
total a b h k = ground arith

growth :
    (c m : Amount)
    → le (amount 0) c ≡ true
    → le (amount 0) m ≡ true
    → is_finite m ≡ true
    → le c (mul c (add (amount 1) m)) ≡ true
growth (amount c) (amount m) h k f =
    let grows : c ≤ c * (1 + m) = omega (arith, mul-add c 1 m) in ground (arith, grows)
growth endless (amount m) h k f = ground arith
growth nan (amount m) h k f = cc h
growth c endless h k f = cc f
growth c nan h k f = cc f

difference : (a b : Amount) → le b a ≡ true → lt (sub a b) (amount 0) ≡ false
difference a b h = ground arith

amounts-IsRounded : IsRounded amounts
amounts-IsRounded = record {
  le_trans = le_trans;
  of_bigint_nonneg = λ n. ground arith;
  scaled_nonneg = scaled;
  mul_nonneg = product;
  add_nonneg = total;
  mul_grows = growth;
  sub_nonneg = difference;
}
