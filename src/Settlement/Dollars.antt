-- ===== src/Settlement/Dollars.antt =====
-- All that the accounting does with a JavaScript number: a bigint as a number, the constants, the
-- four operations and three tests.
use bosphor.Base.{ℕ, Bool, true, false, ◌≡◌, ◌^◌}

-- A bigint.
pub data ℤ : Type 0 where
  pos negsuc : ℕ → ℤ

abbrev pub is_negative : ℤ → Bool
is_negative (pos n) = false
is_negative (negsuc n) = true

pub record Dollars (W : Type 0) : Type 0 where
  pub of_bigint : ℤ → W
  pub nought : W
  pub one : W
  pub infinity : W
  pub add : W → W → W
  pub sub : W → W → W
  pub mul : W → W → W
  pub div : W → W → W
  pub le : W → W → Bool
  pub lt : W → W → Bool
  pub is_finite : W → Bool

-- What the development asks of rounded arithmetic, each of it true of doubles, whose numbers that are
-- not below zero include infinity. A comparison with NaN is false.
pub record IsRounded {W : Type 0} (usd : Dollars W) : Type 0 where
  pub le_trans : (a b c : W) → usd.le a b ≡ true → usd.le b c ≡ true → usd.le a c ≡ true
  pub of_bigint_nonneg : (n : ℕ) → usd.le usd.nought (usd.of_bigint (ℤ.pos n)) ≡ true
  pub scaled_nonneg :
      (a : W)
      → usd.le usd.nought a ≡ true
      → usd.le usd.nought (usd.div a (usd.of_bigint (ℤ.pos (10 ^ 9)))) ≡ true
  pub mul_nonneg :
      (a p : W)
      → usd.le usd.nought a ≡ true
      → usd.is_finite p ≡ true
      → usd.le p usd.nought ≡ false
      → usd.le usd.nought (usd.mul a p) ≡ true
  pub add_nonneg :
      (a b : W)
      → usd.le usd.nought a ≡ true
      → usd.le usd.nought b ≡ true
      → usd.le usd.nought (usd.add a b) ≡ true
  pub mul_grows :
      (c m : W)
      → usd.le usd.nought c ≡ true
      → usd.le usd.nought m ≡ true
      → usd.is_finite m ≡ true
      → usd.le c (usd.mul c (usd.add usd.one m)) ≡ true
  pub sub_nonneg : (a b : W) → usd.le b a ≡ true → usd.lt (usd.sub a b) usd.nought ≡ false
