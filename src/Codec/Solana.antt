-- ===== src/Codec/Solana.antt =====
-- The decoder of relayer/src/chain/solana/solana-intent.codec.ts. `hexlify` of ethers and the base64
-- codec of `Buffer` are parameters. Log lines are ASCII, so positions count characters.
pub mod Layout
use bosphor.Base.{
  ℕ, String, zero, suc, ◌+◌, ◌*◌, ◌^◌, ◌<◌, ◌≤◌, ◌≡◌, refl, sym, ap, ◌∙◌, Option, none, some, List,
  [], ◌∷◌, ◌++◌, length, take, ltb, if◌then◌else◌, not, length-append, arith,
}
use Prim.Native.String.{find, slice, len}
use bosphor.Codec.Bytes.{skip, get_uint8, number_le, digits_le, take-past, skip-past, take-front}
use bosphor.Codec.Bytes.Numbers.{number_le-digits_le}
use bosphor.Codec.BlobId.{equals}

-- `INTENT_SUBMITTED_DISC`, of which the code compares the hex.
abbrev pub intent_submitted_disc : List ℕ
intent_submitted_disc = 0xce ∷ 0x64 ∷ 0xe7 ∷ 0x8d ∷ 0xf5 ∷ 0x1e ∷ 0x50 ∷ 0x63 ∷ []

abbrev pub program_data_prefix : String
program_data_prefix = "Program data: "

abbrev pub body_len : ℕ
body_len = 165

pub record SolanaIntentSubmitted : Type 0 where
  pub intent_id : String
  pub sender : List ℕ
  pub committed_blob_id : String
  pub size : ℕ
  pub encoding_type : ℕ
  pub storage_epochs : ℕ
  pub deadline : ℕ
  pub dst_eid : ℕ

-- `data.subarray(o, o + n)`.
abbrev pub subarray : List ℕ → ℕ → ℕ → List ℕ
subarray bytes o n = take n (skip o bytes)

module _ (hexlify : List ℕ → String) where
  -- The offsets are those that `o` runs through; the nonce at 72 is passed over.
  unfoldable pub decode_intent_submitted : List ℕ → Option SolanaIntentSubmitted
  unfolding equals
  decode_intent_submitted bytes =
      if ltb (length bytes) (8 + body_len)
      then none
      else if not (equals (subarray bytes 0 8) intent_submitted_disc)
      then none
      else some (record {
        intent_id = hexlify (subarray bytes 8 32);
        sender = subarray bytes 40 32;
        committed_blob_id = hexlify (subarray bytes 80 32);
        size = number_le (subarray bytes 112 4);
        encoding_type = get_uint8 bytes 116;
        storage_epochs = number_le (subarray bytes 117 4);
        deadline = number_le (subarray bytes 121 8);
        dst_eid = number_le (subarray bytes 129 4);
      })

  -- The events of the lines that carry one, in the order of the lines. `find` is past the end of a
  -- line without the prefix. `base64_bytes` trims and decodes; it does not throw.
  unfoldable pub parse_intent_submitted_events :
      (base64_bytes : String → List ℕ) → List String → List SolanaIntentSubmitted
  unfolding decode_intent_submitted
  parse_intent_submitted_events base64_bytes [] = []
  parse_intent_submitted_events base64_bytes (line ∷ logs) =
      let events = parse_intent_submitted_events base64_bytes logs in
      let idx = find line program_data_prefix in
      let text = slice line (idx + len program_data_prefix) (len line) in
      if ltb (len line) idx then events else elim (decode_intent_submitted (base64_bytes text)) [
        | none ↦ events
        | some event ↦ event ∷ events
      ]
