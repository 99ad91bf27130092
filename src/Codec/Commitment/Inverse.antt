-- ===== src/Codec/Commitment/Inverse.antt =====
-- The codec of commitments, the other way round: decoded bytes encode to themselves.
use bosphor.Base.{
  ℕ, zero, suc, ◌+◌, ◌*◌, ◌%◌, ◌<◌, ◌≡◌, refl, sym, ap, ◌∙◌, List, [], ◌∷◌, ◌++◌, length, take, All,
  All-take, length-append, arith,
}
use mathlib.Core.Path.{subst}
use mathlib.Core.List.{append-nil}
use bosphor.Base.Result.{ok, ◌>>=◌}
use bosphor.Codec.Bytes.{
  IsByte, get_uint8, skip, digits_be, number_be, get_uint8-past, take-front, take-skip, length-take,
  length-skip, All-skip,
}
use bosphor.Codec.Bytes.Numbers.{digits_be-number_be}
use bosphor.Codec.Commitment.{
  Commitment, read_from, read_uint_be, encode_commitment, decode_commitment,
}
use bosphor.Codec.Commitment.RoundTrip.{layout, read_from-past, encode-layout}

read_from-bytes :
    (ys zs : List ℕ) (value : ℕ) → read_from (ys ++ zs) 0 value (length ys) ≡ number_be value ys
unfolding read_from
read_from-bytes [] zs value = refl
read_from-bytes (y ∷ ys) zs value =
    read_from-past (y ∷ []) (ys ++ zs) 0 (value * 256 + y) (length ys) 1 (omega arith)
    ∙ read_from-bytes ys zs (value * 256 + y)

read_uint_be-bytes :
    (xs ys zs : List ℕ) (n offset : ℕ)
    → offset ≡ length xs
    → n ≡ length ys
    → read_uint_be (xs ++ (ys ++ zs)) offset n ≡ number_be 0 ys
unfolding read_uint_be
read_uint_be-bytes xs ys zs n offset e f =
    read_from-past xs (ys ++ zs) 0 0 n offset (omega arith)
    ∙ ap (read_from (ys ++ zs) 0 0) f
    ∙ read_from-bytes ys zs 0

digits_be-number_be_exact :
    (n : ℕ) (bytes rest : List ℕ)
    → n ≡ length bytes
    → All IsByte bytes
    → digits_be n (number_be 0 bytes) rest ≡ bytes ++ rest
digits_be-number_be_exact n bytes rest e h =
    ap (λ k. digits_be k (number_be 0 bytes) rest) e ∙ digits_be-number_be bytes 0 rest h

-- The commitment that cut bytes stand for.
cut_commitment : (blob size epochs deadline : List ℕ) (b : ℕ) → Commitment
cut_commitment blob size epochs deadline b = record {
  blob_id = blob;
  size = number_be 0 size;
  encoding_type = b;
  storage_epochs = number_be 0 epochs;
  deadline = number_be 0 deadline;
}

module _ (blob size epochs deadline : List ℕ) (b : ℕ) (e0 : length blob ≡ 32) (e1 : 4 ≡ length size)
    (e2 : 4 ≡ length epochs) (e3 : 8 ≡ length deadline) where
  past_type :
      (offset n k : ℕ)
      → offset ≡ 37 + k
      → read_from (blob ++ (size ++ b ∷ (epochs ++ deadline))) offset 0 n
        ≡ read_from (epochs ++ deadline) k 0 n
  past_type offset n k e =
      read_from-past blob (size ++ b ∷ (epochs ++ deadline)) (5 + k) 0 n offset (omega arith)
      ∙ read_from-past size (b ∷ (epochs ++ deadline)) (1 + k) 0 n (5 + k) (omega arith)
      ∙ read_from-past (b ∷ []) (epochs ++ deadline) k 0 n (1 + k) (omega arith)

  cut_blob : length (cut_commitment blob size epochs deadline b).blob_id ≡ 32
  unfolding cut_commitment
  cut_blob = e0

  decode_cut :
      decode_commitment (blob ++ (size ++ b ∷ (epochs ++ deadline)))
      ≡ ok (cut_commitment blob size epochs deadline b)
  unfolding decode_commitment cut_commitment
  decode_cut =
      let tail = size ++ b ∷ (epochs ++ deadline) in
      let rest : length tail ≡ 17 =
        omega
          (arith, length-append size (b ∷ (epochs ++ deadline)), length-append epochs deadline) in
      let full : length (blob ++ tail) ≡ 49 = omega (arith, length-append blob tail) in
      let front : take 32 (blob ++ tail) ≡ blob =
        ap (λ n. take n (blob ++ tail)) (sym e0) ∙ take-front blob tail in
      let sizes : read_uint_be (blob ++ tail) 32 4 ≡ number_be 0 size =
        read_uint_be-bytes blob size (b ∷ (epochs ++ deadline)) 4 32 (sym e0) e1 in
      let encoding : get_uint8 (blob ++ tail) 36 ≡ b =
        get_uint8-past blob tail 4 36 (omega arith)
        ∙ get_uint8-past size (b ∷ (epochs ++ deadline)) 0 4 (omega arith) in
      let lasting : read_from (blob ++ tail) 37 0 4 ≡ number_be 0 epochs =
        past_type 37 4 0 (omega arith)
        ∙ ap (read_from (epochs ++ deadline) 0 0) e2
        ∙ read_from-bytes epochs deadline 0 in
      let until : read_from (blob ++ tail) 41 0 8 ≡ number_be 0 deadline =
        past_type 41 8 4 (omega arith)
        ∙ read_from-past epochs deadline 0 0 8 4 (omega arith)
        ∙ ap (λ bytes. read_from bytes 0 0 8) (sym (append-nil deadline))
        ∙ ap (read_from (deadline ++ []) 0 0) e3
        ∙ read_from-bytes deadline [] 0 in
      rw (full, front, sizes, encoding, lasting, until) refl

  layout_cut :
      All IsByte size
      → IsByte b
      → All IsByte epochs
      → All IsByte deadline
      → layout (cut_commitment blob size epochs deadline b)
        ≡ blob ++ (size ++ b ∷ (epochs ++ deadline))
  unfolding layout cut_commitment
  layout_cut h1 hb h2 h3 =
      let byte : b % 256 ≡ b = omega arith in
      rw
        (
          digits_be-number_be_exact 8 deadline [] e3 h3,
          digits_be-number_be_exact 4 epochs (deadline ++ []) e2 h2,
          digits_be-number_be_exact 4 size (b % 256 ∷ (epochs ++ (deadline ++ []))) e1 h1,
          append-nil deadline,
          byte,
        )
        refl

  encode-decode_cut :
      All IsByte size
      → IsByte b
      → All IsByte epochs
      → All IsByte deadline
      → (decode_commitment (blob ++ (size ++ b ∷ (epochs ++ deadline))) >>= encode_commitment)
        ≡ ok (blob ++ (size ++ b ∷ (epochs ++ deadline)))
  encode-decode_cut h1 hb h2 h3 =
      let c = cut_commitment blob size epochs deadline b in
      ap (λ r. r >>= encode_commitment) decode_cut
      ∙ encode-layout c cut_blob
      ∙ ap ok (layout_cut h1 hb h2 h3)

first_byte : (bytes : List ℕ) → 0 < length bytes → get_uint8 bytes 0 ∷ skip 1 bytes ≡ bytes
first_byte [] h = ground arith
first_byte (b ∷ bytes) h = refl

get_uint8-IsByte :
    (bytes : List ℕ) (offset : ℕ) → All IsByte bytes → IsByte (get_uint8 bytes offset)
get_uint8-IsByte [] offset h = omega arith
get_uint8-IsByte (b ∷ bytes) zero (p, h) = p
get_uint8-IsByte (b ∷ bytes) (suc offset) (p, h) = get_uint8-IsByte bytes offset h

-- 49 bytes decode to a commitment that encodes to them again.
pub encode-decode :
    (bytes : List ℕ)
    → length bytes ≡ 49
    → All IsByte bytes
    → (decode_commitment bytes >>= encode_commitment) ≡ ok bytes
encode-decode bytes e h =
    let numbers = skip 32 bytes in
    let typed = skip 4 numbers in
    let lasting = skip 1 typed in
    let l1 = length-skip 32 bytes (omega arith) in
    let l2 = length-skip 4 numbers (omega arith) in
    let l3 = length-skip 1 typed (omega arith) in
    let l4 = length-skip 4 lasting (omega arith) in
    let bytes1 = All-skip 32 bytes h in
    let bytes2 = All-skip 4 numbers bytes1 in
    let bytes3 = All-skip 1 typed bytes2 in
    let joined : take 32 bytes
          ++ (take 4 numbers ++ get_uint8 typed 0 ∷ (take 4 lasting ++ skip 4 lasting))
        ≡ bytes =
      rw
        (
          take-skip 4 lasting,
          first_byte typed (omega arith),
          take-skip 4 numbers,
          take-skip 32 bytes,
        )
        refl in
    subst (λ bs. (decode_commitment bs >>= encode_commitment) ≡ ok bs) joined
      (encode-decode_cut (take 32 bytes) (take 4 numbers) (take 4 lasting) (skip 4 lasting)
        (get_uint8 typed 0) (length-take 32 bytes (omega arith))
        (sym (length-take 4 numbers (omega arith))) (sym (length-take 4 lasting (omega arith)))
        (omega arith) (All-take IsByte 4 numbers bytes1) (get_uint8-IsByte typed 0 bytes2)
        (All-take IsByte 4 lasting bytes3) (All-skip 4 lasting bytes3))
