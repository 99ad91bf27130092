-- ===== src/Codec/Tests.antt =====
-- Codecs at concrete bytes.
use bosphor.Base.{
  ℕ, String, zero, suc, ◌+◌, ◌%◌, ◌∙◌, ◌≡◌, refl, ap, List, [], ◌∷◌, ◌++◌, if◌then◌else◌, ◌==◌, ◌↔◌,
  some, true, arith,
}
use bosphor.Base.Result.{ok, ◌>>=◌}
use Prim.Native.String.{◌∷◌ as glue, [] as blank, len}
use Prim.Native.Char.{code, char}
use bosphor.Codec.Bytes.{zeros, skip}
use bosphor.Codec.Commitment.{
  Commitment, encode_commitment, decode_commitment, preimage, derive_intent_id,
}
use bosphor.Codec.Commitment.RoundTrip.{IsInRange, decode-encode}
use bosphor.Codec.Commitment.Inverse.{encode-decode}
use bosphor.Codec.Commitment.IntentId.{padded, derive_intent_id-injective}
use bosphor.Codec.Solana.{decode_intent_submitted}
use bosphor.Codec.Solana.Layout.{Emitted, event_layout, decode_intent_submitted-layout}
use bosphor.Codec.BlobId.{
  Codecs, IsCodec, walrus_blob_id_to_field, field_to_walrus_blob_id, blob_id_matches,
  field_to_walrus_blob_id-matches,
}

abbrev commitment : Commitment
commitment = record {
  blob_id = 7 ∷ zeros 31;
  size = 70000;
  encoding_type = 1;
  storage_epochs = 3;
  deadline = 1750000000;
}

commitment-IsInRange : IsInRange commitment
commitment-IsInRange = record {
  size = omega arith;
  encoding_type = omega arith;
  storage_epochs = omega arith;
  deadline = omega arith;
}

decode-encode_example : (encode_commitment commitment >>= decode_commitment) ≡ ok commitment
decode-encode_example = decode-encode commitment commitment-IsInRange

encode-decode_example : (decode_commitment (9 ∷ zeros 48) >>= encode_commitment) ≡ ok (9 ∷ zeros 48)
encode-decode_example = encode-decode (9 ∷ zeros 48) refl (ground arith)

abbrev nonce : ℕ
nonce = 5

-- A hash into 32 bytes.
abbrev last_bytes : List ℕ → List ℕ
last_bytes bytes = skip 57 bytes

abbrev encoded : List ℕ
encoded =
    (7 ∷ zeros 31)
    ++ (0 ∷ 1 ∷ 17 ∷ 112 ∷ 1 ∷ 0 ∷ 0 ∷ 0 ∷ 3 ∷ 0 ∷ 0 ∷ 0 ∷ 0 ∷ 104 ∷ 78 ∷ 225 ∷ 128 ∷ [])

encoded_is_encoded : encode_commitment commitment ≡ ok encoded
unfolding encode_commitment
encoded_is_encoded = refl

-- The id under the hash that keeps the last 32 bytes.
abbrev hashed : List ℕ
hashed = zeros 4 ++ (1 ∷ zeros 19) ++ (zeros 7 ++ 5 ∷ [])

hashed_is_derived : derive_intent_id last_bytes commitment (1 ∷ zeros 19) 5 ≡ ok hashed
unfolding derive_intent_id
hashed_is_derived = refl

hashed_is_derived_padded :
    derive_intent_id last_bytes commitment (zeros 12 ++ 1 ∷ zeros 19) 5 ≡ ok hashed
unfolding derive_intent_id
hashed_is_derived_padded = refl

same_preimage :
    preimage encoded (1 ∷ zeros 19) nonce ≡ preimage encoded (zeros 12 ++ 1 ∷ zeros 19) nonce
unfolding preimage
same_preimage = refl

-- A 20-byte and a 32-byte sender with the same padding, hashed by a function that collides on other
-- bytes only.
derive_intent_id-injective_example :
    (commitment ≡ commitment)
    × (padded (1 ∷ zeros 19) ≡ padded (zeros 12 ++ 1 ∷ zeros 19))
    × (nonce ≡ nonce)
derive_intent_id-injective_example =
    derive_intent_id-injective last_bytes commitment commitment encoded encoded (1 ∷ zeros 19)
      (zeros 12 ++ 1 ∷ zeros 19) nonce nonce hashed encoded_is_encoded encoded_is_encoded
      (λ same. same_preimage) commitment-IsInRange commitment-IsInRange (omega arith) (omega arith)
      hashed_is_derived hashed_is_derived_padded

abbrev emitted : Emitted
emitted = record {
  intent_id = 1 ∷ zeros 31;
  sender = 2 ∷ zeros 31;
  nonce = 77;
  blob_id = 3 ∷ zeros 31;
  size = 70000;
  encoding_type = 1;
  storage_epochs = 3;
  deadline = 1750000000;
  dst_eid = 30378;
}

decode_intent_submitted-layout_example :
    decode_intent_submitted (λ bytes. "0x") (event_layout emitted (zeros 40))
    ≡ some (record {
      intent_id = "0x";
      sender = 2 ∷ zeros 31;
      committed_blob_id = "0x";
      size = 70000;
      encoding_type = 1;
      storage_epochs = 3;
      deadline = 1750000000;
      dst_eid = 30378;
    })
decode_intent_submitted-layout_example =
    decode_intent_submitted-layout (λ bytes. "0x") emitted (zeros 40)
      (record {
        intent_id = refl;
        sender = refl;
        blob_id = refl;
        size = omega arith;
        storage_epochs = omega arith;
        deadline = omega arith;
        dst_eid = omega arith;
      })
      (omega arith)

-- A codec of byte lists as texts: each byte in unary, and a full stop.
unary : ℕ → String → String
unary zero rest = glue (char 46 tt) rest
unary (suc n) rest = glue (char 49 tt) (unary n rest)

to_text : List ℕ → String
unfolding unary
to_text [] = ""
to_text (b ∷ bytes) = unary b (to_text bytes)

read_text : ℕ → String → List ℕ
read_text n blank = []
read_text n (glue c text) =
    let rest = read_text 0 text in
    let more = read_text (suc n) text in if code c == 46 then n ∷ rest else more

read_text-unary :
    (n b : ℕ) (text : String) → read_text n (unary b text) ≡ (n + b) ∷ read_text 0 text
unfolding read_text unary
read_text-unary n zero text = ap (λ m. m ∷ read_text 0 text) (omega arith)
read_text-unary n (suc b) text =
    read_text-unary (suc n) b text ∙ ap (λ m. m ∷ read_text 0 text) (omega arith)

read_text-to_text : (bytes : List ℕ) → read_text 0 (to_text bytes) ≡ bytes
unfolding read_text to_text
read_text-to_text [] = refl
read_text-to_text (b ∷ bytes) =
    let value : 0 + b ≡ b = omega arith in
    read_text-unary 0 b (to_text bytes)
    ∙ ap (λ m. m ∷ read_text 0 (to_text bytes)) value
    ∙ ap (λ bs. b ∷ bs) (read_text-to_text bytes)

codecs : Codecs
unfolding to_text read_text
codecs = record {
  from_base64url = read_text 0;
  to_base64url = to_text;
  from_hex = λ text. len text % 256 ∷ zeros 31;
}

codecs-IsCodec : IsCodec codecs
unfolding codecs
codecs-IsCodec = record {
  base64url_back = λ bytes h. read_text-to_text bytes;
  hex_bytes = λ text. ground arith;
}

-- The id of the field of `0x7`, against `0x7` and `0x`.
field_to_walrus_blob_id-matches_example :
    (walrus_blob_id_to_field codecs (to_text (zeros 31 ++ 3 ∷ [])) ≡ ok (codecs.from_hex "0x7"))
    × ((blob_id_matches codecs (to_text (zeros 31 ++ 3 ∷ [])) "0x" ≡ true)
        ↔ (codecs.from_hex "0x7" ≡ codecs.from_hex "0x"))
unfolding codecs field_to_walrus_blob_id
field_to_walrus_blob_id-matches_example =
    field_to_walrus_blob_id-matches codecs "0x7" "0x" (to_text (zeros 31 ++ 3 ∷ [])) codecs-IsCodec
      refl
