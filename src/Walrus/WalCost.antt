-- ===== src/Walrus/WalCost.antt =====
-- relayer/src/walrus/wal-cost.calculator.ts. A size, a duration and a shard count are numbers that are
-- integers in range or not; a price is a bigint in range or not. Sizes stay far below 2^53.
pub mod Laws
use bosphor.Base.{
  ℕ, String, Bool, ◌+◌, ◌-◌, ◌*◌, ◌/◌, ◌%◌, ◌≤◌, ◌≡◌, Option, none, some, true, false,
  if◌then◌else◌, ltb, min, max, or_else, ◌==◌, ◌&&◌,
}
use bosphor.Base.Result.{Result, ok, err, ◌>>=◌}
use bosphor.Walrus.StoreEpochs.{Number, natural, malformed}

pub data WalrusEncodingType : Type 0 where
  rs2 red_stuff : WalrusEncodingType

pub record WalrusSystemState : Type 0 where
  pub n_shards : Number
  pub storage_price_per_unit_size : Number
  pub write_price_per_unit_size : Number
  pub encoding_type : Option WalrusEncodingType

pub record WalCostBreakdown : Type 0 where
  pub unencoded_size : ℕ
  pub encoded_size : ℕ
  pub storage_units : ℕ
  pub epochs : ℕ
  pub storage_cost_frost : ℕ
  pub write_cost_frost : ℕ
  pub total_cost_frost : ℕ

-- The checks, in the source's order.
pub data CostError : Type 0 where
  invalid_size invalid_epochs invalid_shards invalid_storage_price invalid_write_price : CostError

abbrev pub digest_len : ℕ
digest_len = 32

abbrev pub blob_id_len : ℕ
blob_id_len = 32

abbrev pub bytes_per_unit_size : ℕ
bytes_per_unit_size = 1048576

unfoldable pub get_max_faulty_nodes : ℕ → ℕ
get_max_faulty_nodes n_shards = (n_shards - 1) / 3

unfoldable pub decoding_safety_limit : ℕ → WalrusEncodingType → ℕ
unfolding get_max_faulty_nodes
decoding_safety_limit n_shards red_stuff = min 5 (get_max_faulty_nodes n_shards / 5)
decoding_safety_limit n_shards rs2 = 0

-- The two counts of symbols; no subtraction stops at 0 when there is a shard.
unfoldable pub get_source_symbols : ℕ → WalrusEncodingType → ℕ × ℕ
unfolding decoding_safety_limit
get_source_symbols n_shards encoding_type =
    let safety_limit = decoding_safety_limit n_shards encoding_type in
    let max_faulty = get_max_faulty_nodes n_shards in
    let min_correct = n_shards - max_faulty in
    (min_correct - max_faulty - safety_limit, min_correct - safety_limit)

-- RS2 rounds an odd symbol size up.
unfoldable pub round_symbol : WalrusEncodingType → ℕ → ℕ
round_symbol rs2 size = if size % 2 == 1 then size + 1 else size
round_symbol red_stuff size = size

unfoldable pub encoded_sliver_size : ℕ → ℕ → WalrusEncodingType → ℕ
unfolding get_source_symbols round_symbol
encoded_sliver_size unencoded_length n_shards encoding_type =
    let (primary, secondary) = get_source_symbols n_shards encoding_type in
    let symbol_size = (max unencoded_length 1 - 1) / (primary * secondary) + 1 in
    (primary + secondary) * round_symbol encoding_type symbol_size * n_shards

unfoldable pub encoded_blob_length : ℕ → ℕ → WalrusEncodingType → ℕ
unfolding encoded_sliver_size
encoded_blob_length unencoded_length n_shards encoding_type =
    n_shards * (n_shards * digest_len * 2 + blob_id_len)
    + encoded_sliver_size unencoded_length n_shards encoding_type

-- `Math.ceil(encodedSize / BYTES_PER_UNIT_SIZE)`.
unfoldable pub storage_units_from_size : ℕ → ℕ
storage_units_from_size encoded_size =
    (encoded_size + (bytes_per_unit_size - 1)) / bytes_per_unit_size

-- A number that is an integer of at least `least`.
abbrev pub at_least : ℕ → CostError → Number → Result CostError ℕ
at_least least e malformed = err e
at_least least e (natural n) = if ltb n least then err e else ok n

-- The cost, once the inputs are valid.
unfoldable pub breakdown : ℕ → ℕ → ℕ → ℕ → ℕ → WalrusEncodingType → WalCostBreakdown
unfolding encoded_blob_length storage_units_from_size
breakdown size epochs n_shards storage write encoding_type =
    let encoded = encoded_blob_length size n_shards encoding_type in
    let units = storage_units_from_size encoded in
    record {
      unencoded_size = size;
      encoded_size = encoded;
      storage_units = units;
      epochs = epochs;
      storage_cost_frost = units * storage * epochs;
      write_cost_frost = units * write;
      total_cost_frost = units * storage * epochs + units * write;
    }

unfoldable pub compute_wal_cost :
    Number → Number → WalrusSystemState → Result CostError WalCostBreakdown
unfolding breakdown
compute_wal_cost unencoded_size epochs state = do
  size ← at_least 0 invalid_size unencoded_size
  e ← at_least 1 invalid_epochs epochs
  n ← at_least 1 invalid_shards state.n_shards
  storage ← at_least 0 invalid_storage_price state.storage_price_per_unit_size
  write ← at_least 0 invalid_write_price state.write_price_per_unit_size
  ok (breakdown size e n storage write (or_else state.encoding_type rs2))
