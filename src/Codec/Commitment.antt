-- ===== src/Codec/Commitment.antt =====
-- sdk/src/commitment-codec.ts. The hash is @noble's keccak_256, a parameter. A commitment's numbers
-- are naturals: `BigInt` would refuse a fraction.
pub mod RoundTrip
pub mod Inverse
pub mod IntentId
use bosphor.Base.{
  ℕ, zero, suc, ◌+◌, ◌-◌, ◌*◌, ◌/◌, ◌%◌, List, [], ◌∷◌, if◌then◌else◌, ltb, ◌==◌, not, length, take,
}
use bosphor.Base.Result.{Result, ok, err, ◌>>=◌}
use bosphor.Codec.Bytes.{zeros, get_uint8, set_uint8, set_bytes}

abbrev pub commitment_bytes : ℕ
commitment_bytes = 49

abbrev pub blob_id_bytes : ℕ
blob_id_bytes = 32

abbrev pub sender_bytes : ℕ
sender_bytes = 32

pub record Commitment : Type 0 where
  pub blob_id : List ℕ
  pub size : ℕ
  pub encoding_type : ℕ
  pub storage_epochs : ℕ
  pub deadline : ℕ

-- What the functions throw, with the length of the offending bytes.
pub data CodecError : Type 0 where
  bad_blob_id bad_commitment bad_sender : ℕ → CodecError

-- `value & 0xff` is the remainder and `value >>= 8` the quotient. The count is that of the digits
-- still to write, from the last one to the first.
unfoldable pub write_uint_be : List ℕ → ℕ → ℕ → ℕ → List ℕ
write_uint_be view offset value zero = view
write_uint_be view offset value (suc i) =
    write_uint_be (set_uint8 view (offset + i) (value % 256)) offset (value / 256) i

-- `(value << 8) | byte` is a sum: the byte is below 256. The loop's index is the offset here.
unfoldable pub read_from : List ℕ → ℕ → ℕ → ℕ → ℕ
read_from view offset value zero = value
read_from view offset value (suc n) =
    read_from view (suc offset) (value * 256 + get_uint8 view offset) n

unfoldable pub read_uint_be : List ℕ → ℕ → ℕ → ℕ
unfolding read_from
read_uint_be view offset n = read_from view offset 0 n

-- The bytes that `encodeCommitment` fills in, once the blob id has its length.
unfoldable pub fill_commitment : Commitment → List ℕ
unfolding write_uint_be
fill_commitment c =
    let out = set_bytes (zeros commitment_bytes) c.blob_id 0 in
    let sized = write_uint_be out 32 c.size 4 in
    let typed = set_uint8 sized 36 c.encoding_type in
    let lasting = write_uint_be typed 37 c.storage_epochs 4 in write_uint_be lasting 41 c.deadline 8

unfoldable pub encode_commitment : Commitment → Result CodecError (List ℕ)
unfolding fill_commitment
encode_commitment c =
    if not (length c.blob_id == blob_id_bytes)
    then err (CodecError.bad_blob_id (length c.blob_id))
    else ok (fill_commitment c)

unfoldable pub decode_commitment : List ℕ → Result CodecError Commitment
unfolding read_uint_be
decode_commitment bytes =
    if not (length bytes == commitment_bytes)
    then err (CodecError.bad_commitment (length bytes))
    else ok (record {
      blob_id = take blob_id_bytes bytes;
      size = read_uint_be bytes 32 4;
      encoding_type = get_uint8 bytes 36;
      storage_epochs = read_uint_be bytes 37 4;
      deadline = read_uint_be bytes 41 8;
    })

-- The bytes that are hashed into the intent id, of an encoded commitment.
unfoldable pub preimage : List ℕ → List ℕ → ℕ → List ℕ
unfolding write_uint_be
preimage encoded sender nonce =
    let blank = zeros (commitment_bytes + sender_bytes + 8) in
    let committed = set_bytes blank encoded 0 in
    let signed = set_bytes committed sender (commitment_bytes + (sender_bytes - length sender)) in
    write_uint_be signed (commitment_bytes + sender_bytes) nonce 8

unfoldable pub derive_intent_id :
    (List ℕ → List ℕ) → Commitment → List ℕ → ℕ → Result CodecError (List ℕ)
unfolding encode_commitment preimage
derive_intent_id keccak_256 c sender nonce =
    if ltb sender_bytes (length sender)
    then err (CodecError.bad_sender (length sender))
    else do encoded ← encode_commitment c; ok (keccak_256 (preimage encoded sender nonce))
