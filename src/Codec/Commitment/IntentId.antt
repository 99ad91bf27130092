-- ===== src/Codec/Commitment/IntentId.antt =====
-- The bytes behind an intent id, and that an id stands for one commitment, sender and nonce.
use bosphor.Base.{
  ℕ, zero, suc, ◌+◌, ◌-◌, ◌^◌, ◌<◌, ◌≤◌, ◌≡◌, refl, sym, ap, ◌∙◌, List, [], ◌∷◌, ◌++◌, length, take,
  length-append, ltb, ◌==◌, Bool-cases, inl, inr, true, false, arith,
}
use bosphor.Base.Result.{ok, err, ◌>>=◌, ok-injective}
use bosphor.Codec.Bytes.{
  zeros, skip, set_bytes, digits_be, number_be, take-front, skip-front, take-past, skip-past,
  length-zeros,
}
use bosphor.Codec.Bytes.Numbers.{number_be-digits_be}
use bosphor.Codec.Commitment.{
  Commitment, CodecError, write_uint_be, encode_commitment, preimage, derive_intent_id,
  decode_commitment,
}
use bosphor.Codec.Commitment.RoundTrip.{
  IsInRange, layout, encode_refuses, length-layout, mod_256, decode-layout, encode-layout,
  write_uint_be-past,
}

-- `sender`, left-padded with zeros to its canonical width.
pub padded : List ℕ → List ℕ
padded sender = zeros (32 - length sender) ++ sender

take-zeros : (k n : ℕ) → k ≤ n → take k (zeros n) ≡ zeros k
take-zeros zero n h = refl
take-zeros (suc k) zero h = ground arith
take-zeros (suc k) (suc n) h = ap (◌∷◌ 0) (take-zeros k n (omega arith))

append_assoc : (xs ys zs : List ℕ) → (xs ++ ys) ++ zs ≡ xs ++ (ys ++ zs)
append_assoc [] ys zs = refl
append_assoc (x ∷ xs) ys zs = ap (◌∷◌ x) (append_assoc xs ys zs)

write_nonce : (nonce : ℕ) → write_uint_be (zeros 8) 0 nonce 8 ≡ digits_be 8 nonce []
unfolding write_uint_be
write_nonce nonce = simp (mod_256) refl

preimage_lem :
    (encoded sender : List ℕ) (nonce : ℕ)
    → length encoded ≡ 49
    → length sender ≤ 32
    → preimage encoded sender nonce ≡ encoded ++ (padded sender ++ digits_be 8 nonce [])
unfolding preimage padded
preimage_lem encoded sender nonce e h =
    let pad = 32 - length sender in
    let lead = encoded ++ zeros pad in
    let first : set_bytes (zeros 89) encoded 0 ≡ encoded ++ zeros 40 =
      (let full : length encoded + 0 ≡ 49 = omega arith in
        ap (λ n. encoded ++ skip n (zeros 89)) full) in
    let before : take (49 + pad) (encoded ++ zeros 40) ≡ lead =
      take-past encoded (zeros 40) pad (49 + pad) (omega arith)
      ∙ ap (◌++◌ encoded) (take-zeros pad 40 (omega arith)) in
    let behind : skip (length sender + (49 + pad)) (encoded ++ zeros 40) ≡ zeros 8 =
      skip-past encoded (zeros 40) 32 (length sender + (49 + pad)) (omega arith) in
    let width : 81 ≡ length (lead ++ sender) + 0 =
      omega
        (arith, length-append lead sender, length-append encoded (zeros pad), length-zeros pad) in
    rw (first, before, behind)
      (ap (λ bytes. write_uint_be bytes 81 nonce 8) (sym (append_assoc lead sender (zeros 8)))
        ∙ write_uint_be-past (lead ++ sender) (zeros 8) 0 nonce 8 81 width
        ∙ ap (◌++◌ (lead ++ sender)) (write_nonce nonce)
        ∙ append_assoc lead sender (digits_be 8 nonce [])
        ∙ append_assoc encoded (zeros pad) (sender ++ digits_be 8 nonce [])
        ∙ ap (◌++◌ encoded) (sym (append_assoc (zeros pad) sender (digits_be 8 nonce []))))

-- Equal lists with equally long fronts have equal fronts and equal rests.
append-injective :
    (xs xs' ys ys' : List ℕ)
    → length xs ≡ length xs'
    → xs ++ ys ≡ xs' ++ ys'
    → (xs ≡ xs') × (ys ≡ ys')
append-injective xs xs' ys ys' e h = (
  sym (take-front xs ys)
      ∙ ap (take (length xs)) h
      ∙ ap (λ n. take n (xs' ++ ys')) e
      ∙ take-front xs' ys',
  sym (skip-front xs ys)
      ∙ ap (skip (length xs)) h
      ∙ ap (λ n. skip n (xs' ++ ys')) e
      ∙ skip-front xs' ys',
)

length-padded : (sender : List ℕ) → length sender ≤ 32 → length (padded sender) ≡ 32
unfolding padded
length-padded sender h =
    omega
      (arith, length-append (zeros (32 - length sender)) sender, length-zeros (32 - length sender))

derive_long :
    (keccak_256 : List ℕ → List ℕ) (c : Commitment) (sender : List ℕ) (nonce : ℕ)
    → ltb 32 (length sender) ≡ true
    → derive_intent_id keccak_256 c sender nonce ≡ err (CodecError.bad_sender (length sender))
unfolding derive_intent_id
derive_long keccak_256 c sender nonce e = rw (e) refl

derive_short :
    (keccak_256 : List ℕ → List ℕ) (c : Commitment) (sender : List ℕ) (nonce : ℕ)
    → ltb 32 (length sender) ≡ false
    → derive_intent_id keccak_256 c sender nonce
      ≡ (encode_commitment c >>= λ encoded. ok (keccak_256 (preimage encoded sender nonce)))
unfolding derive_intent_id
derive_short keccak_256 c sender nonce e = rw (e) refl

-- An id is the hash of the three parts, and there is one only for fitting parts.
derive_intent_id_lem :
    (keccak_256 : List ℕ → List ℕ) (c : Commitment) (sender : List ℕ) (nonce : ℕ) (id : List ℕ)
    → derive_intent_id keccak_256 c sender nonce ≡ ok id
    → (length c.blob_id ≡ 32)
      × (length sender ≤ 32)
      × (keccak_256 (layout c ++ (padded sender ++ digits_be 8 nonce [])) ≡ id)
derive_intent_id_lem keccak_256 c sender nonce id h = elim (Bool-cases (ltb 32 (length sender))) [
  | inl long ↦ cc (derive_long keccak_256 c sender nonce long, h)
  | inr short ↦
      let s : length sender ≤ 32 = ground (arith, short) in
      let derived = derive_short keccak_256 c sender nonce short in
      elim (Bool-cases (length c.blob_id == 32)) [
        | inl fits ↦
            let e : length c.blob_id ≡ 32 = ground (arith, fits) in
            (
              e,
              s,
              ap keccak_256 (sym (preimage_lem (layout c) sender nonce (length-layout c e) s))
                  ∙ ok-injective _ id (
                      sym (
                        ap (λ r. r >>= λ encoded. ok (keccak_256 (preimage encoded sender nonce)))
                          (encode-layout c e))
                      ∙ sym derived
                      ∙ h),
            )
        | inr other ↦
            let thrown =
              ap (λ r. r >>= λ encoded. ok (keccak_256 (preimage encoded sender nonce)))
                (encode_refuses c other) in
            cc (thrown, derived, h)
      ]
]

preimage_encoded :
    (c : Commitment) (encoded sender : List ℕ) (nonce : ℕ)
    → encode_commitment c ≡ ok encoded
    → length c.blob_id ≡ 32
    → length sender ≤ 32
    → preimage encoded sender nonce ≡ layout c ++ (padded sender ++ digits_be 8 nonce [])
preimage_encoded c encoded sender nonce f e s =
    ap (λ bytes. preimage bytes sender nonce)
      (ok-injective encoded (layout c) (sym f ∙ encode-layout c e))
    ∙ preimage_lem (layout c) sender nonce (length-layout c e) s

-- If two commitments, senders and nonces, whose numbers fit into their widths, have the same intent
-- id, and the hash does not collide on the two lists of bytes that were hashed for it, then the
-- commitments, the left-padded senders and the nonces are the same.
pub derive_intent_id-injective :
    (keccak_256 : List ℕ → List ℕ) (c c' : Commitment) (encoded encoded' : List ℕ)
    (sender sender' : List ℕ) (nonce nonce' : ℕ) (id : List ℕ)
    → encode_commitment c ≡ ok encoded
    → encode_commitment c' ≡ ok encoded'
    → (keccak_256 (preimage encoded sender nonce) ≡ keccak_256 (preimage encoded' sender' nonce')
        → preimage encoded sender nonce ≡ preimage encoded' sender' nonce')
    → IsInRange c
    → IsInRange c'
    → nonce < 2 ^ 64
    → nonce' < 2 ^ 64
    → derive_intent_id keccak_256 c sender nonce ≡ ok id
    → derive_intent_id keccak_256 c' sender' nonce' ≡ ok id
    → (c ≡ c') × (padded sender ≡ padded sender') × (nonce ≡ nonce')
derive_intent_id-injective keccak_256 c c' b b' sender sender' nonce nonce' id f f' apart r r' n n'
      h h' =
    let (e, s, k) = derive_intent_id_lem keccak_256 c sender nonce id h in
    let (e', s', k') = derive_intent_id_lem keccak_256 c' sender' nonce' id h' in
    let p = preimage_encoded c b sender nonce f e s in
    let p' = preimage_encoded c' b' sender' nonce' f' e' s' in
    let (commitments, rests) =
      append-injective (layout c) (layout c') (padded sender ++ digits_be 8 nonce [])
        (padded sender' ++ digits_be 8 nonce' []) (length-layout c e ∙ sym (length-layout c' e'))
        (sym p ∙ apart (ap keccak_256 p ∙ k ∙ sym k' ∙ sym (ap keccak_256 p')) ∙ p') in
    let (senders, nonces) =
      append-injective (padded sender) (padded sender') (digits_be 8 nonce [])
        (digits_be 8 nonce' []) (length-padded sender s ∙ sym (length-padded sender' s')) rests in
    (
      ok-injective c c'
          (sym (decode-layout c e r) ∙ ap decode_commitment commitments ∙ decode-layout c' e' r'),
      senders,
      omega (
        arith,
        number_be-digits_be 8 nonce 0 [] n,
        number_be-digits_be 8 nonce' 0 [] n',
        ap (number_be 0) nonces,
      ),
    )
