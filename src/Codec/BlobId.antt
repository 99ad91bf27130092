-- ===== src/Codec/BlobId.antt =====
-- relayer/src/common/walrus-blob-id.ts. `Buffer`'s codecs are parameters.
use bosphor.Base.{
  ℕ, String, Bool, true, false, not, ◌&&◌, ◌≡◌, refl, sym, ap, ◌∙◌, List, [], ◌∷◌, ◌++◌, length,
  if◌then◌else◌, ◌==◌, Bool-cases, inl, inr, All, All-append, length-append, ◌↔◌, arith,
}
use mathlib.Core.Path.{subst}
use mathlib.Core.List.{append-nil, append_assoc}
use bosphor.Base.Result.{Result, ok, err, ok-injective}
use bosphor.Codec.Bytes.{IsByte}

-- `Buffer.from(text, 'base64url')`, its inverse, and `Buffer.from(text.replace(/^0x/i, ''), 'hex')`.
pub record Codecs : Type 0 where
  pub from_base64url : String → List ℕ
  pub to_base64url : List ℕ → String
  pub from_hex : String → List ℕ

-- `reverse()`.
unfoldable pub reverse : List ℕ → List ℕ
reverse [] = []
reverse (b ∷ bytes) = reverse bytes ++ (b ∷ [])

-- `field.equals(committed)`.
unfoldable pub equals : List ℕ → List ℕ → Bool
equals [] [] = true
equals [] (c ∷ cs) = false
equals (b ∷ bs) [] = false
equals (b ∷ bs) (c ∷ cs) = b == c && equals bs cs

module _ (codecs : Codecs) where
  -- What is thrown is the number of bytes.
  unfoldable pub walrus_blob_id_to_field : String → Result ℕ (List ℕ)
  unfolding reverse
  walrus_blob_id_to_field base64url =
      let le = codecs.from_base64url base64url in
      if not (length le == 32) then err (length le) else ok (reverse le)

  unfoldable pub field_to_walrus_blob_id : String → Result ℕ String
  unfolding reverse
  field_to_walrus_blob_id committed_hex =
      let be = codecs.from_hex committed_hex in
      if not (length be == 32) then err (length be) else ok (codecs.to_base64url (reverse be))

  -- A throw is caught and means `false`.
  unfoldable pub blob_id_matches : String → String → Bool
  unfolding walrus_blob_id_to_field equals
  blob_id_matches recomputed_base64url committed_hex =
      elim (walrus_blob_id_to_field recomputed_base64url) [
        | err thrown ↦ false
        | ok field ↦
            let committed = codecs.from_hex committed_hex in
            length committed == 32 && equals field committed
      ]

reverse-append : (xs ys : List ℕ) → reverse (xs ++ ys) ≡ reverse ys ++ reverse xs
unfolding reverse
reverse-append [] ys = sym (append-nil (reverse ys))
reverse-append (x ∷ xs) ys =
    ap (λ zs. zs ++ (x ∷ [])) (reverse-append xs ys)
    ∙ append_assoc (reverse ys) (reverse xs) (x ∷ [])

reverse-reverse : (xs : List ℕ) → reverse (reverse xs) ≡ xs
unfolding reverse
reverse-reverse [] = refl
reverse-reverse (x ∷ xs) = reverse-append (reverse xs) (x ∷ []) ∙ ap (◌∷◌ x) (reverse-reverse xs)

length-reverse : (xs : List ℕ) → length (reverse xs) ≡ length xs
unfolding reverse
length-reverse [] = refl
length-reverse (x ∷ xs) = omega (arith, length-append (reverse xs) (x ∷ []), length-reverse xs)

All-reverse : (xs : List ℕ) → All IsByte xs → All IsByte (reverse xs)
unfolding reverse
All-reverse [] h = tt
All-reverse (x ∷ xs) (p, h) = All-append IsByte (reverse xs) (x ∷ []) (All-reverse xs h) (p, tt)

equals-eq : (xs ys : List ℕ) → equals xs ys ≡ true → xs ≡ ys
unfolding equals
equals-eq [] [] h = refl
equals-eq [] (y ∷ ys) h = ground (arith, h)
equals-eq (x ∷ xs) [] h = ground (arith, h)
equals-eq (x ∷ xs) (y ∷ ys) h = ground (arith, equals-eq xs ys, h)

equals_refl : (xs : List ℕ) → equals xs xs ≡ true
unfolding equals
equals_refl [] = refl
equals_refl (x ∷ xs) = ground (arith, equals_refl xs)

-- What the development asks of `Buffer`: decoding a base64url text gives the bytes that were
-- encoded, and hex decodes to bytes.
pub record IsCodec (codecs : Codecs) : Type 0 where
  pub base64url_back :
      (bytes : List ℕ)
      → All IsByte bytes
      → codecs.from_base64url (codecs.to_base64url bytes) ≡ bytes
  pub hex_bytes : (text : String) → All IsByte (codecs.from_hex text)

field_to_walrus_blob_id_lem :
    (codecs : Codecs) (committed id : String)
    → field_to_walrus_blob_id codecs committed ≡ ok id
    → (length (codecs.from_hex committed) ≡ 32)
      × (codecs.to_base64url (reverse (codecs.from_hex committed)) ≡ id)
unfolding field_to_walrus_blob_id
field_to_walrus_blob_id_lem codecs committed id h =
    elim (Bool-cases (length (codecs.from_hex committed) == 32)) [
      | inl fits ↦ (
        ground (arith, fits),
        ok-injective _ id (
            subst
              (λ b.
                (if not b
                  then err (length (codecs.from_hex committed))
                  else ok (codecs.to_base64url (reverse (codecs.from_hex committed))))
                ≡ ok id)
              fits h),
      )
      | inr other ↦ cc (other, h)
    ]

walrus_blob_id_to_field_lem :
    (codecs : Codecs) (bytes : List ℕ) (id : String)
    → IsCodec codecs
    → All IsByte bytes
    → length bytes ≡ 32
    → codecs.to_base64url (reverse bytes) ≡ id
    → walrus_blob_id_to_field codecs id ≡ ok bytes
unfolding walrus_blob_id_to_field
walrus_blob_id_to_field_lem codecs bytes id laws h e k =
    let decoded : codecs.from_base64url id ≡ reverse bytes =
      ap codecs.from_base64url (sym k)
      ∙ laws.base64url_back (reverse bytes) (All-reverse bytes h) in
    let full : length (reverse bytes) ≡ 32 = length-reverse bytes ∙ e in
    rw (decoded, full) (ap ok (reverse-reverse bytes))

-- A committed field's Walrus blob id leads back to the field, and it matches another commitment
-- exactly if that is the same field.
pub field_to_walrus_blob_id-matches :
    (codecs : Codecs) (committed other id : String)
    → IsCodec codecs
    → field_to_walrus_blob_id codecs committed ≡ ok id
    → (walrus_blob_id_to_field codecs id ≡ ok (codecs.from_hex committed))
      × ((blob_id_matches codecs id other ≡ true)
          ↔ (codecs.from_hex committed ≡ codecs.from_hex other))
unfolding blob_id_matches
field_to_walrus_blob_id-matches codecs committed other id laws h =
    let (e, k) = field_to_walrus_blob_id_lem codecs committed id h in
    let field =
      walrus_blob_id_to_field_lem codecs (codecs.from_hex committed) id laws
        (laws.hex_bytes committed) e k in
    (
      field,
      rw (blob_id_matches, field)
          (
            (λ m.
                equals-eq (codecs.from_hex committed) (codecs.from_hex other) (ground (arith, m))),
            (λ same.
                let full : length (codecs.from_hex other) ≡ 32 = ap length (sym same) ∙ e in
                rw (full) (
                  ap (equals (codecs.from_hex committed)) (sym same)
                  ∙ equals_refl (codecs.from_hex committed))),
          ),
    )
