-- ===== src/Codec/Bytes/Numbers.antt =====
-- Digits in base 256 and the numbers that they are.
use bosphor.Base.{
  ℕ, zero, suc, ◌+◌, ◌*◌, ◌/◌, ◌%◌, ◌^◌, ◌<◌, ◌≡◌, refl, sym, ap, ◌∙◌, List, [], ◌∷◌, ◌++◌, length,
  All, arith,
}
use bosphor.Codec.Bytes.{IsByte, digits_be, digits_le, number_be, number_le}
use native.Mathlib.Nat.{pow-suc, pow-succ', mul_assoc, div-div-eq-div-mul}

-- One digit more.
digit_fits : (n value : ℕ) → value < 256 ^ suc n → value / 256 < 256 ^ n
digit_fits n value h = omega (arith, pow-suc 256 n)

digit_joins :
    (n value acc : ℕ)
    → (acc * 256 ^ n + value / 256) * 256 + value % 256 ≡ acc * 256 ^ suc n + value
digit_joins n value acc =
    omega (arith, ap (◌*◌ acc) (pow-suc 256 n) ∙ sym (mul_assoc acc (256 ^ n) 256))

-- Reading back what was written.
pub number_be-digits_be :
    (n value acc : ℕ) (rest : List ℕ)
    → value < 256 ^ n
    → number_be acc (digits_be n value rest) ≡ number_be (acc * 256 ^ n + value) rest
number_be-digits_be zero value acc rest h = ap (λ v. number_be v rest) (omega arith)
number_be-digits_be (suc n) value acc rest h =
    number_be-digits_be n (value / 256) acc (value % 256 ∷ rest) (digit_fits n value h)
    ∙ ap (λ v. number_be v rest) (digit_joins n value acc)

pub number_le-digits_le : (n value : ℕ) → value < 256 ^ n → number_le (digits_le n value []) ≡ value
number_le-digits_le zero value h = omega arith
number_le-digits_le (suc n) value h =
    omega (arith, number_le-digits_le n (value / 256) (digit_fits n value h))

digits_be-suc :
    (n value : ℕ) (rest : List ℕ)
    → digits_be (suc n) value rest ≡ value / 256 ^ n % 256 ∷ digits_be n value rest
digits_be-suc zero value rest = ap (λ v. v % 256 ∷ rest) (omega arith)
digits_be-suc (suc n) value rest =
    digits_be-suc n (value / 256) (value % 256 ∷ rest)
    ∙ ap (λ v. v % 256 ∷ digits_be n (value / 256) (value % 256 ∷ rest))
        (div-div-eq-div-mul value 256 (256 ^ n) ∙ ap (◌/◌ value) (sym (pow-succ' 256 n)))

number_be-front :
    (bytes : List ℕ) (acc : ℕ) → All IsByte bytes → number_be acc bytes / 256 ^ length bytes ≡ acc
number_be-front [] acc h = omega arith
number_be-front (b ∷ bytes) acc (p, h) =
    ap (◌/◌ (number_be (acc * 256 + b) bytes)) (pow-suc 256 (length bytes))
    ∙ sym (div-div-eq-div-mul (number_be (acc * 256 + b) bytes) (256 ^ length bytes) 256)
    ∙ ap (λ v. v / 256) (number_be-front bytes (acc * 256 + b) h)
    ∙ omega arith

-- Writing back what was read.
pub digits_be-number_be :
    (bytes : List ℕ) (acc : ℕ) (rest : List ℕ)
    → All IsByte bytes
    → digits_be (length bytes) (number_be acc bytes) rest ≡ bytes ++ rest
digits_be-number_be [] acc rest h = refl
digits_be-number_be (b ∷ bytes) acc rest (p, h) =
    digits_be-suc (length bytes) (number_be (acc * 256 + b) bytes) rest
    ∙ ap (λ v. v % 256 ∷ digits_be (length bytes) (number_be (acc * 256 + b) bytes) rest)
        (number_be-front bytes (acc * 256 + b) h)
    ∙ ap (λ v. v ∷ digits_be (length bytes) (number_be (acc * 256 + b) bytes) rest) (omega arith)
    ∙ ap (◌∷◌ b) (digits_be-number_be bytes (acc * 256 + b) rest h)
