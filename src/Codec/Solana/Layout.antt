-- ===== src/Codec/Solana/Layout.antt =====
-- The layout of an `IntentSubmitted` event, and that the decoder reads it.
use bosphor.Base.{
  ℕ, String, zero, suc, ◌+◌, ◌^◌, ◌<◌, ◌≤◌, ◌≡◌, refl, sym, ap, ◌∙◌, some, List, [], ◌∷◌, ◌++◌,
  length, take, ltb, false, true, length-append, arith,
}
use bosphor.Codec.Bytes.{skip, get_uint8, number_le, digits_le, skip-past, take-front}
use bosphor.Codec.Bytes.Numbers.{number_le-digits_le}
use bosphor.Codec.BlobId.{equals}
use bosphor.Codec.Solana.{intent_submitted_disc, subarray, decode_intent_submitted}

-- What the adapter puts into an event, up to the fields that the relayer leaves to the verifier.
pub record Emitted : Type 0 where
  pub intent_id : List ℕ
  pub sender : List ℕ
  pub nonce : ℕ
  pub blob_id : List ℕ
  pub size : ℕ
  pub encoding_type : ℕ
  pub storage_epochs : ℕ
  pub deadline : ℕ
  pub dst_eid : ℕ

pub record IsEvent (e : Emitted) : Type 0 where
  pub intent_id : length e.intent_id ≡ 32
  pub sender : length e.sender ≡ 32
  pub blob_id : length e.blob_id ≡ 32
  pub size : e.size < 2 ^ 32
  pub storage_epochs : e.storage_epochs < 2 ^ 32
  pub deadline : e.deadline < 2 ^ 64
  pub dst_eid : e.dst_eid < 2 ^ 32

-- The numbers behind the blob id.
pub event_numbers : Emitted → List ℕ → List ℕ
event_numbers e rest = digits_le 4 e.size (
    e.encoding_type
    ∷ digits_le 4 e.storage_epochs (digits_le 8 e.deadline (digits_le 4 e.dst_eid rest)))

-- The borsh layout of the event, little-endian, with what follows the fields that are read.
pub event_layout : Emitted → List ℕ → List ℕ
event_layout e rest =
    intent_submitted_disc
    ++ (e.intent_id ++ (e.sender ++ digits_le 8 e.nonce (e.blob_id ++ event_numbers e rest)))

get_uint8-skip : (bytes : List ℕ) (o : ℕ) → get_uint8 bytes o ≡ get_uint8 (skip o bytes) 0
get_uint8-skip [] zero = refl
get_uint8-skip [] (suc o) = refl
get_uint8-skip (b ∷ bytes) zero = refl
get_uint8-skip (b ∷ bytes) (suc o) = get_uint8-skip bytes o

-- A part between what stands before it and what follows it.
subarray_lem :
    (before part after : List ℕ) (o n : ℕ)
    → o ≡ length before
    → n ≡ length part
    → subarray (before ++ (part ++ after)) o n ≡ part
subarray_lem before part after o n e f =
    ap (take n) (skip-past before (part ++ after) 0 o (omega arith))
    ∙ ap (λ m. take m (part ++ after)) f
    ∙ take-front part after

module _ (e : Emitted) (rest : List ℕ) (h : IsEvent e) where
  from_sender : List ℕ
  from_sender = e.sender ++ digits_le 8 e.nonce (e.blob_id ++ event_numbers e rest)

  from_sender_lem : (k o : ℕ) → o ≡ 40 + k → skip o (event_layout e rest) ≡ skip k from_sender
  unfolding event_layout from_sender
  from_sender_lem k o f =
      skip-past intent_submitted_disc (e.intent_id ++ from_sender) (32 + k) o (omega arith)
      ∙ skip-past e.intent_id from_sender k (32 + k) (omega (arith, h.intent_id))

  from_blob_lem :
      (k o : ℕ)
      → o ≡ 80 + k
      → skip o (event_layout e rest) ≡ skip k (e.blob_id ++ event_numbers e rest)
  unfolding from_sender
  from_blob_lem k o f =
      let nonce = digits_le 8 e.nonce [] in
      let behind = e.blob_id ++ event_numbers e rest in
      from_sender_lem (40 + k) o (omega arith)
      ∙ skip-past e.sender (nonce ++ behind) (8 + k) (40 + k) (omega (arith, h.sender))
      ∙ skip-past nonce behind k (8 + k) (omega arith)

  from_numbers_lem :
      (k o : ℕ) → o ≡ 112 + k → skip o (event_layout e rest) ≡ skip k (event_numbers e rest)
  from_numbers_lem k o f =
      from_blob_lem (32 + k) o (omega arith)
      ∙ skip-past e.blob_id (event_numbers e rest) k (32 + k) (omega (arith, h.blob_id))

  number_at :
      (k o n value : ℕ)
      → o ≡ 112 + k
      → value < 256 ^ n
      → take n (skip k (event_numbers e rest)) ≡ digits_le n value []
      → number_le (subarray (event_layout e rest) o n) ≡ value
  number_at k o n value f b d =
      ap (λ bytes. number_le (take n bytes)) (from_numbers_lem k o f)
      ∙ ap number_le d
      ∙ number_le-digits_le n value b

  length-event_layout : 40 ≤ length rest → ltb (length (event_layout e rest)) 173 ≡ false
  unfolding event_layout event_numbers
  length-event_layout k =
      let behind = e.blob_id ++ event_numbers e rest in
      ground (
        arith,
        h.intent_id,
        h.sender,
        h.blob_id,
        length-append e.intent_id (e.sender ++ digits_le 8 e.nonce behind),
        length-append e.sender (digits_le 8 e.nonce behind),
        length-append e.blob_id (event_numbers e rest),
      )

  event_disc : equals (subarray (event_layout e rest) 0 8) intent_submitted_disc ≡ true
  unfolding event_layout equals
  event_disc = refl

  event_id : subarray (event_layout e rest) 8 32 ≡ e.intent_id
  unfolding event_layout from_sender
  event_id = subarray_lem intent_submitted_disc e.intent_id from_sender 8 32 refl (sym h.intent_id)

  event_sender : subarray (event_layout e rest) 40 32 ≡ e.sender
  unfolding from_sender
  event_sender =
      ap (take 32) (from_sender_lem 0 40 refl)
      ∙ subarray_lem [] e.sender (digits_le 8 e.nonce (e.blob_id ++ event_numbers e rest)) 0 32 refl
          (sym h.sender)

  event_blob : subarray (event_layout e rest) 80 32 ≡ e.blob_id
  event_blob =
      ap (take 32) (from_blob_lem 0 80 refl)
      ∙ subarray_lem [] e.blob_id (event_numbers e rest) 0 32 refl (sym h.blob_id)

  event_size : number_le (subarray (event_layout e rest) 112 4) ≡ e.size
  unfolding event_numbers
  event_size = number_at 0 112 4 e.size refl h.size refl

  event_encoding : get_uint8 (event_layout e rest) 116 ≡ e.encoding_type
  unfolding event_numbers
  event_encoding =
      get_uint8-skip (event_layout e rest) 116
      ∙ ap (λ bytes. get_uint8 bytes 0) (from_numbers_lem 4 116 refl)

  event_epochs : number_le (subarray (event_layout e rest) 117 4) ≡ e.storage_epochs
  unfolding event_numbers
  event_epochs = number_at 5 117 4 e.storage_epochs refl h.storage_epochs refl

  event_deadline : number_le (subarray (event_layout e rest) 121 8) ≡ e.deadline
  unfolding event_numbers
  event_deadline = number_at 9 121 8 e.deadline refl h.deadline refl

  event_eid : number_le (subarray (event_layout e rest) 129 4) ≡ e.dst_eid
  unfolding event_numbers
  event_eid = number_at 17 129 4 e.dst_eid refl h.dst_eid refl

-- Decoding an event of the documented layout gives the fields that were emitted, whatever 40 or more
-- bytes follow them.
pub decode_intent_submitted-layout :
    (hexlify : List ℕ → String) (e : Emitted) (rest : List ℕ)
    → IsEvent e
    → 40 ≤ length rest
    → decode_intent_submitted hexlify (event_layout e rest)
      ≡ some (record {
        intent_id = hexlify e.intent_id;
        sender = e.sender;
        committed_blob_id = hexlify e.blob_id;
        size = e.size;
        encoding_type = e.encoding_type;
        storage_epochs = e.storage_epochs;
        deadline = e.deadline;
        dst_eid = e.dst_eid;
      })
unfolding decode_intent_submitted
decode_intent_submitted-layout hexlify e rest h k =
    let bytes = event_layout e rest in
    let long : ltb (length bytes) 173 ≡ false = length-event_layout e rest h k in
    let id : subarray bytes 8 32 ≡ e.intent_id = event_id e rest h in
    let sender : subarray bytes 40 32 ≡ e.sender = event_sender e rest h in
    let blob : subarray bytes 80 32 ≡ e.blob_id = event_blob e rest h in
    let size : number_le (subarray bytes 112 4) ≡ e.size = event_size e rest h in
    let encoding : get_uint8 bytes 116 ≡ e.encoding_type = event_encoding e rest h in
    let epochs : number_le (subarray bytes 117 4) ≡ e.storage_epochs = event_epochs e rest h in
    let deadline : number_le (subarray bytes 121 8) ≡ e.deadline = event_deadline e rest h in
    let eid : number_le (subarray bytes 129 4) ≡ e.dst_eid = event_eid e rest h in
    rw
      (
        decode_intent_submitted,
        long,
        event_disc e rest,
        id,
        sender,
        blob,
        size,
        encoding,
        epochs,
        deadline,
        eid,
      )
      refl
