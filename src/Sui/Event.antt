-- ===== src/Sui/Event.antt =====
-- The `IntentReceived` event: `SuiLzEvent` of relayer/src/chain/sui/sui.service.ts and how
-- `processCheckpoint` of sui-checkpoint.service.ts reads one. `Buffer`'s base64 decoding and
-- `BigInt`, which may throw, are parameters.
use bosphor.Base.{
  ℕ, String, ◌/◌, ◌%◌, Option, none, some, List, [], ◌∷◌, ◌==◌, not, if◌then◌else◌, str_eq, or_else,
  length,
}
use bosphor.Base.Result.{Result, ok, ◌>>=◌}
use Prim.Native.String.{◌++◌ as str_append, ◌∷◌ as str_cons, [] as str_nil, char_at}

pub record SuiLzEvent : Type 0 where
  pub intent_id : String
  pub delivery_digest : String
  pub committed_blob_id : String
  pub size : ℕ
  pub encoding_type : ℕ
  pub storage_epochs : Option ℕ
  pub deadline : ℕ
  pub src_eid : ℕ
  pub nonce : ℕ

-- The fields of an event's struct: `strVal` and `numVal` of each, if it is there.
pub record StructFields : Type 0 where
  pub intent_id : Option String
  pub committed_blob_id : Option String
  pub size : Option ℕ
  pub encoding_type : Option ℕ
  pub storage_epochs : Option ℕ
  pub deadline : Option String
  pub src_eid : Option ℕ
  pub nonce : Option String

-- An event as gRPC gives it. `none` is JSON that is no struct.
pub record RawEvent : Type 0 where
  pub event_type : String
  pub fields : Option StructFields

pub record Transaction : Type 0 where
  pub digest : Option String
  pub events : Option (List RawEvent)

pub record Decoders : Type 0 where
  pub base64_bytes : String → List ℕ
  pub big_int : String → Result String ℕ

-- `b.toString(16).padStart(2, '0')`, for each byte.
abbrev pub hex_digits : List ℕ → String
hex_digits [] = str_nil
hex_digits (b ∷ bytes) =
    str_cons (char_at "0123456789abcdef" (b / 16 % 16))
      (str_cons (char_at "0123456789abcdef" (b % 16)) (hex_digits bytes))

-- `b64Bytes`.
abbrev pub b64_bytes : Decoders → Option String → List ℕ
b64_bytes decoders none = []
b64_bytes decoders (some text) = if str_eq text "" then [] else decoders.base64_bytes text

unfoldable pub read_fields : Decoders → String → List ℕ → StructFields → Result String SuiLzEvent
read_fields decoders digest id f = do
  deadline ← decoders.big_int (or_else f.deadline "0")
  nonce ← decoders.big_int (or_else f.nonce "0")
  ok (record {
    intent_id = str_append "0x" (hex_digits id);
    delivery_digest = digest;
    committed_blob_id = or_else f.committed_blob_id "0";
    size = or_else f.size 0;
    encoding_type = or_else f.encoding_type 0;
    storage_epochs = f.storage_epochs;
    deadline = deadline;
    src_eid = or_else f.src_eid 0;
    nonce = nonce;
  })

abbrev pub event_type_of : String → String
event_type_of lz_package_id = str_append lz_package_id "::lz_receiver::IntentReceived"

-- An event with its struct's fields; without an id it is passed over.
unfoldable pub read_struct :
    Decoders → String → Option StructFields → Result String (Option SuiLzEvent)
unfolding read_fields
read_struct decoders digest none = ok none
read_struct decoders digest (some f) =
    let id = b64_bytes decoders f.intent_id in
    if length id == 0 then ok none else do event ← read_fields decoders digest id f; ok (some event)

-- The event that a raw one stands for; `none` is passed over.
unfoldable pub read_event :
    Decoders → String → String → RawEvent → Result String (Option SuiLzEvent)
unfolding read_struct
read_event decoders lz_package_id digest raw =
    if not (str_eq raw.event_type (event_type_of lz_package_id))
    then ok none
    else read_struct decoders digest raw.fields
