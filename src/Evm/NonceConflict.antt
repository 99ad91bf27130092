-- ===== src/Evm/NonceConflict.antt =====
-- relayer/src/chain/evm/nonce-conflict.ts. Fees are not negative. An error's chain of causes is finite
-- here, so none is its own cause; the search stops at depth 5 all the same.
use bosphor.Base.{
  ℕ, String, Bool, false, ◌||◌, ◌+◌, ◌-◌, ◌*◌, ◌/◌, suc, Option, none, some, ltb, str_eq,
  if◌then◌else◌, coalesce, or_else,
}
use bosphor.Base.Result.{Result, ok, ◌>>=◌}

-- A thrown value: no object (nor a cause), or an object with what it has of `code`, `message` and
-- `cause`.
pub data ErrorValue : Type 0 where
  plain : ErrorValue
  object : (code : Option String) → (message : Option String) → (cause : ErrorValue) → ErrorValue

abbrev pub is_conflict_code : Option String → Bool
is_conflict_code none = false
is_conflict_code (some code) = str_eq code "REPLACEMENT_UNDERPRICED" || str_eq code "NONCE_EXPIRED"

-- The test of NONCE_CONFLICT_MESSAGE_RE, a parameter, on a message that is text.
abbrev pub is_conflict_message : (String → Bool) → Option String → Bool
is_conflict_message matches none = false
is_conflict_message matches (some message) = matches message

unfoldable pub is_nonce_conflict_error : (String → Bool) → ErrorValue → ℕ → Bool
is_nonce_conflict_error matches plain depth = false
is_nonce_conflict_error matches (object code message cause) depth =
    let deeper = is_nonce_conflict_error matches cause (suc depth) in
    if ltb 5 depth
    then false
    else is_conflict_code code || is_conflict_message matches message || deeper

abbrev pub fee_bump_numerator : ℕ
fee_bump_numerator = 112

abbrev pub fee_bump_denominator : ℕ
fee_bump_denominator = 100

abbrev pub max_fee_bumps : ℕ
max_fee_bumps = 3

unfoldable pub bump_fee : ℕ → ℕ
bump_fee fee = (fee * fee_bump_numerator + (fee_bump_denominator - 1)) / fee_bump_denominator

pub record FeeOverrides : Type 0 where
  pub max_fee_per_gas : ℕ
  pub max_priority_fee_per_gas : ℕ

unfoldable pub bump_fee_overrides : FeeOverrides → FeeOverrides
unfolding bump_fee
bump_fee_overrides fees = record {
  max_fee_per_gas = bump_fee fees.max_fee_per_gas;
  max_priority_fee_per_gas = bump_fee fees.max_priority_fee_per_gas;
}

-- What `getFeeData` gives.
pub record FeeData : Type 0 where
  pub max_fee_per_gas : Option ℕ
  pub max_priority_fee_per_gas : Option ℕ
  pub gas_price : Option ℕ

-- `ethers.parseUnits('1.5', 'gwei')`.
abbrev pub fee_floor : ℕ
fee_floor = 1500000000

unfoldable pub initial_fee_overrides : Result ErrorValue FeeData → Result ErrorValue FeeOverrides
initial_fee_overrides get_fee_data = do
  fee_data ← get_fee_data
  ok (record {
    max_fee_per_gas = or_else (coalesce fee_data.max_fee_per_gas fee_data.gas_price) fee_floor;
    max_priority_fee_per_gas = or_else fee_data.max_priority_fee_per_gas fee_floor;
  })
