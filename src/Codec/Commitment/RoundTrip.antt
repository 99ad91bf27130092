-- ===== src/Codec/Commitment/RoundTrip.antt =====
-- The codec of commitments undoes itself both ways, and an intent id stands for one intent.
use bosphor.Base.{
  ℕ, zero, suc, ◌+◌, ◌*◌, ◌/◌, ◌%◌, ◌^◌, ◌<◌, ◌≡◌, refl, sym, ap, ◌∙◌, List, [], ◌∷◌, ◌++◌,
  if◌then◌else◌, ◌==◌, length, take, length-append, Bool-cases, inl, inr, arith, true, false,
}
use bosphor.Base.Result.{ok, err, ◌>>=◌}
use bosphor.Codec.Bytes.{
  zeros, get_uint8, set_uint8, set_bytes, skip, digits_be, number_be, set_uint8-past,
  get_uint8-past, take-front,
}
use bosphor.Codec.Bytes.Numbers.{number_be-digits_be}
use bosphor.Codec.Commitment.{
  Commitment, CodecError, write_uint_be, read_from, read_uint_be, fill_commitment,
  encode_commitment, decode_commitment,
}

-- The fields fit into their widths.
pub record IsInRange (c : Commitment) : Type 0 where
  pub size : c.size < 2 ^ 32
  pub encoding_type : c.encoding_type < 2 ^ 8
  pub storage_epochs : c.storage_epochs < 2 ^ 32
  pub deadline : c.deadline < 2 ^ 64

-- The documented layout.
unfoldable pub layout : Commitment → List ℕ
layout c =
    c.blob_id
    ++ digits_be 4 c.size
        (c.encoding_type % 256 ∷ digits_be 4 c.storage_epochs (digits_be 8 c.deadline []))

pub write_uint_be-past :
    (xs ys : List ℕ) (k value n offset : ℕ)
    → offset ≡ length xs + k
    → write_uint_be (xs ++ ys) offset value n ≡ xs ++ write_uint_be ys k value n
unfolding write_uint_be
write_uint_be-past xs ys k value zero offset e = refl
write_uint_be-past xs ys k value (suc i) offset e =
    ap (λ v. write_uint_be v offset (value / 256) i)
      (set_uint8-past xs ys (k + i) (value % 256) (offset + i) (omega arith))
    ∙ write_uint_be-past xs (set_uint8 ys (k + i) (value % 256)) k (value / 256) i offset e

pub read_from-past :
    (xs ys : List ℕ) (k value n offset : ℕ)
    → offset ≡ length xs + k
    → read_from (xs ++ ys) offset value n ≡ read_from ys k value n
unfolding read_from
read_from-past xs ys k value zero offset e = refl
read_from-past xs ys k value (suc n) offset e =
    read_from-past xs ys (suc k) (value * 256 + get_uint8 (xs ++ ys) offset) n (suc offset)
      (omega arith)
    ∙ ap (λ b. read_from ys (suc k) (value * 256 + b) n) (get_uint8-past xs ys k offset e)

set_bytes-front :
    (blob : List ℕ) → length blob ≡ 32 → set_bytes (zeros 49) blob 0 ≡ blob ++ zeros 17
set_bytes-front blob e =
    let full : length blob + 0 ≡ 32 = omega arith in ap (λ n. blob ++ skip n (zeros 49)) full

-- The numbers alone, in an array that starts behind the blob id.
fill_numbers : Commitment → List ℕ
fill_numbers c =
    let sized = write_uint_be (zeros 17) 0 c.size 4 in
    let typed = set_uint8 sized 4 c.encoding_type in
    let lasting = write_uint_be typed 5 c.storage_epochs 4 in write_uint_be lasting 9 c.deadline 8

pub mod_256 : (n : ℕ) → n % 256 % 256 ≡ n % 256
mod_256 n = omega arith

fill_numbers_lem : (c : Commitment) → c.blob_id ++ fill_numbers c ≡ layout c
unfolding fill_numbers layout write_uint_be
fill_numbers_lem c = simp (mod_256) refl

pub fill_commitment-layout : (c : Commitment) → length c.blob_id ≡ 32 → fill_commitment c ≡ layout c
unfolding fill_commitment fill_numbers
fill_commitment-layout c e =
    let blob = c.blob_id in
    let sized = write_uint_be (zeros 17) 0 c.size 4 in
    let typed = set_uint8 sized 4 c.encoding_type in
    let lasting = write_uint_be typed 5 c.storage_epochs 4 in
    rw
      (
        set_bytes-front blob e,
        write_uint_be-past blob (zeros 17) 0 c.size 4 32 (omega arith),
        set_uint8-past blob sized 4 c.encoding_type 36 (omega arith),
        write_uint_be-past blob typed 5 c.storage_epochs 4 37 (omega arith),
        write_uint_be-past blob lasting 9 c.deadline 8 41 (omega arith),
      )
      (fill_numbers_lem c)

pub length-layout : (c : Commitment) → length c.blob_id ≡ 32 → length (layout c) ≡ 49
unfolding layout
length-layout c e = omega (
  arith,
  length-append c.blob_id (
      digits_be 4 c.size
        (c.encoding_type % 256 ∷ digits_be 4 c.storage_epochs (digits_be 8 c.deadline []))),
)

-- Behind the first bytes, the loop reads the number that the next ones are.
read_uint_be-digits :
    (xs rest : List ℕ) (k n value offset : ℕ)
    → offset ≡ length xs + k
    → value < 256 ^ n
    → read_from rest k 0 n ≡ number_be 0 (digits_be n value [])
    → read_uint_be (xs ++ rest) offset n ≡ value
unfolding read_uint_be
read_uint_be-digits xs rest k n value offset e h r =
    read_from-past xs rest k 0 n offset e ∙ r ∙ number_be-digits_be n value 0 [] h ∙ omega arith

pub decode-layout :
    (c : Commitment) → length c.blob_id ≡ 32 → IsInRange c → decode_commitment (layout c) ≡ ok c
unfolding decode_commitment layout read_from
decode-layout c e h =
    let blob = c.blob_id in
    let numbers =
      digits_be 4 c.size
        (c.encoding_type % 256 ∷ digits_be 4 c.storage_epochs (digits_be 8 c.deadline [])) in
    let full : length (blob ++ numbers) ≡ 49 = omega (arith, length-append blob numbers) in
    let front : take 32 (blob ++ numbers) ≡ blob =
      ap (λ n. take n (blob ++ numbers)) (sym e) ∙ take-front blob numbers in
    let size : read_uint_be (blob ++ numbers) 32 4 ≡ c.size =
      read_uint_be-digits blob numbers 0 4 c.size 32 (omega arith) h.size refl in
    let encoding : get_uint8 (blob ++ numbers) 36 ≡ c.encoding_type =
      get_uint8-past blob numbers 4 36 (omega arith) ∙ omega (arith, h.encoding_type) in
    let epochs : read_uint_be (blob ++ numbers) 37 4 ≡ c.storage_epochs =
      read_uint_be-digits blob numbers 5 4 c.storage_epochs 37 (omega arith) h.storage_epochs
        refl in
    let deadline : read_uint_be (blob ++ numbers) 41 8 ≡ c.deadline =
      read_uint_be-digits blob numbers 9 8 c.deadline 41 (omega arith) h.deadline refl in
    rw (full, front, size, encoding, epochs, deadline) refl

pub encode-layout : (c : Commitment) → length c.blob_id ≡ 32 → encode_commitment c ≡ ok (layout c)
unfolding encode_commitment
encode-layout c e =
    let fits : (length c.blob_id == 32) ≡ true = ground (arith, e) in
    rw (fits) (ap ok (fill_commitment-layout c e))

pub encode_refuses :
    (c : Commitment)
    → (length c.blob_id == 32) ≡ false
    → encode_commitment c ≡ err (CodecError.bad_blob_id (length c.blob_id))
unfolding encode_commitment
encode_refuses c e = rw (e) refl

-- Decoding an encoded commitment gives it back, if its numbers fit into their widths; a blob id of
-- another length than 32 is thrown out.
pub decode-encode :
    (c : Commitment)
    → IsInRange c
    → (encode_commitment c >>= decode_commitment)
      ≡ (if length c.blob_id == 32 then ok c else err (CodecError.bad_blob_id (length c.blob_id)))
decode-encode c h = elim (Bool-cases (length c.blob_id == 32)) [
  | inl fits ↦
      let e : length c.blob_id ≡ 32 = ground (arith, fits) in
      rw (encode-layout c e, fits) (decode-layout c e h)
  | inr other ↦ rw (encode_refuses c other, other) refl
]
