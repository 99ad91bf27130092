-- ===== src/Codec/Bytes.antt =====
-- Byte arrays as lists of numbers below 256, and what the codecs do with a `DataView`: a store at an
-- index, and the big-endian and little-endian reads. An access past the end is a RangeError, which
-- no codec runs into: each checks the length first. Here a write past the end is dropped and a read
-- gives 0.
pub mod Numbers
use bosphor.Base.{
  ℕ, zero, suc, ◌+◌, ◌*◌, ◌/◌, ◌%◌, ◌^◌, ◌<◌, ◌≤◌, ◌≡◌, refl, sym, ap, ◌∙◌, List, [], ◌∷◌, ◌++◌,
  length, take, All, arith,
}

abbrev pub IsByte : ℕ → Type 0
IsByte b = b < 256

-- `new Uint8Array(n)`.
abbrev pub zeros : ℕ → List ℕ
zeros zero = []
zeros (suc n) = 0 ∷ zeros n

abbrev pub skip : ℕ → List ℕ → List ℕ
skip zero bytes = bytes
skip (suc n) [] = []
skip (suc n) (b ∷ bytes) = skip n bytes

-- `view.getUint8(offset)`.
abbrev pub get_uint8 : List ℕ → ℕ → ℕ
get_uint8 [] offset = 0
get_uint8 (b ∷ bytes) zero = b
get_uint8 (b ∷ bytes) (suc offset) = get_uint8 bytes offset

-- `view.setUint8(offset, value)`, which takes the value modulo 256.
abbrev pub set_uint8 : List ℕ → ℕ → ℕ → List ℕ
set_uint8 [] offset value = []
set_uint8 (b ∷ bytes) zero value = value % 256 ∷ bytes
set_uint8 (b ∷ bytes) (suc offset) value = b ∷ set_uint8 bytes offset value

-- `out.set(src, offset)` for a source that fits.
abbrev pub set_bytes : List ℕ → List ℕ → ℕ → List ℕ
set_bytes out src offset = take offset out ++ (src ++ skip (length src + offset) out)

-- The digits of a number in base 256, the most significant first, ahead of `rest`.
abbrev pub digits_be : ℕ → ℕ → List ℕ → List ℕ
digits_be zero value rest = rest
digits_be (suc n) value rest = digits_be n (value / 256) (value % 256 ∷ rest)

-- The digits, the least significant first.
abbrev pub digits_le : ℕ → ℕ → List ℕ → List ℕ
digits_le zero value rest = rest
digits_le (suc n) value rest = value % 256 ∷ digits_le n (value / 256) rest

-- The number with the digits `bytes` behind those of `value`.
abbrev pub number_be : ℕ → List ℕ → ℕ
number_be value [] = value
number_be value (b ∷ bytes) = number_be (value * 256 + b) bytes

abbrev pub number_le : List ℕ → ℕ
number_le [] = 0
number_le (b ∷ bytes) = b + 256 * number_le bytes

pub length-zeros : (n : ℕ) → length (zeros n) ≡ n
length-zeros zero = refl
length-zeros (suc n) = ap suc (length-zeros n)

pub take-front : (xs ys : List ℕ) → take (length xs) (xs ++ ys) ≡ xs
take-front [] ys = refl
take-front (x ∷ xs) ys = ap (◌∷◌ x) (take-front xs ys)

pub skip-front : (xs ys : List ℕ) → skip (length xs) (xs ++ ys) ≡ ys
skip-front [] ys = refl
skip-front (x ∷ xs) ys = skip-front xs ys

pub take-skip : (n : ℕ) (xs : List ℕ) → take n xs ++ skip n xs ≡ xs
take-skip zero xs = refl
take-skip (suc n) [] = refl
take-skip (suc n) (x ∷ xs) = ap (◌∷◌ x) (take-skip n xs)

-- Behind the first bytes, an index counts from their end.
pub get_uint8-past :
    (xs ys : List ℕ) (k offset : ℕ)
    → offset ≡ length xs + k
    → get_uint8 (xs ++ ys) offset ≡ get_uint8 ys k
get_uint8-past [] ys k offset e = ap (get_uint8 ys) (omega arith)
get_uint8-past (x ∷ xs) ys k zero e = omega arith
get_uint8-past (x ∷ xs) ys k (suc offset) e = get_uint8-past xs ys k offset (omega arith)

pub set_uint8-past :
    (xs ys : List ℕ) (k v offset : ℕ)
    → offset ≡ length xs + k
    → set_uint8 (xs ++ ys) offset v ≡ xs ++ set_uint8 ys k v
set_uint8-past [] ys k v offset e = ap (λ o. set_uint8 ys o v) (omega arith)
set_uint8-past (x ∷ xs) ys k v zero e = ground arith
set_uint8-past (x ∷ xs) ys k v (suc offset) e =
    ap (◌∷◌ x) (set_uint8-past xs ys k v offset (omega arith))

pub length-take : (n : ℕ) (xs : List ℕ) → n ≤ length xs → length (take n xs) ≡ n
length-take zero xs h = refl
length-take (suc n) [] h = omega arith
length-take (suc n) (x ∷ xs) h = ap suc (length-take n xs (omega arith))

pub length-skip : (n : ℕ) (xs : List ℕ) → n ≤ length xs → length (skip n xs) + n ≡ length xs
length-skip zero xs h = omega arith
length-skip (suc n) [] h = omega arith
length-skip (suc n) (x ∷ xs) h = omega (arith, length-skip n xs (omega arith))

pub All-skip : (n : ℕ) (xs : List ℕ) → All IsByte xs → All IsByte (skip n xs)
All-skip zero xs h = h
All-skip (suc n) [] h = tt
All-skip (suc n) (x ∷ xs) (p, h) = All-skip n xs h

pub take-past : (xs ys : List ℕ) (k n : ℕ) → n ≡ length xs + k → take n (xs ++ ys) ≡ xs ++ take k ys
take-past [] ys k n e = ap (λ m. take m ys) (omega arith)
take-past (x ∷ xs) ys k zero e = ground arith
take-past (x ∷ xs) ys k (suc n) e = ap (◌∷◌ x) (take-past xs ys k n (omega arith))

pub skip-past : (xs ys : List ℕ) (k n : ℕ) → n ≡ length xs + k → skip n (xs ++ ys) ≡ skip k ys
skip-past [] ys k n e = ap (λ m. skip m ys) (omega arith)
skip-past (x ∷ xs) ys k zero e = ground arith
skip-past (x ∷ xs) ys k (suc n) e = skip-past xs ys k n (omega arith)
