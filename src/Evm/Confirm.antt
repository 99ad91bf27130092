-- ===== src/Evm/Confirm.antt =====
-- `sendConfirmExecution` of relayer/src/chain/evm/evm.service.ts; its fixed wait after an error that is
-- no conflict, and the log, are left out, and so is `ethers.getBytes`, which refuses a proof that is no
-- hex before anything is asked of the network.
use bosphor.Base.{ℕ, String, Bool, suc, zero, List, [], ◌∷◌, if◌then◌else◌, ltb, ◌==◌}
use bosphor.Base.Result.{Result, ok, err}
use bosphor.Evm.NonceConflict.{
  ErrorValue, FeeOverrides, FeeData, is_nonce_conflict_error, bump_fee_overrides, max_fee_bumps,
  initial_fee_overrides,
}

-- The provider's answers: the n-th attempt's send with its receipt's hash, and the pending nonce as
-- read before the first attempt (0) and after the n-th one.
pub record Network : Type 0 where
  pub fee_data : Result ErrorValue FeeData
  pub pending : ℕ → Result ErrorValue ℕ
  pub confirm : ℕ → Result ErrorValue String
  pub matches : String → Bool

-- A transaction as it is built, and the bumps of its fees.
pub record Built : Type 0 where
  pub nonce : ℕ
  pub fees : FeeOverrides
  pub fee_bumps : ℕ

pub data Thrown : Type 0 where
  failed : ErrorValue → Thrown
  unreachable : Thrown

abbrev pub max_confirm_attempts : ℕ
max_confirm_attempts = 3

-- After a conflict: the fresh nonce, and the fees bumped as long as there is a bump left.
unfoldable pub rebuild : ℕ → Built → Built
rebuild nonce tx =
    if ltb tx.fee_bumps max_fee_bumps
    then record { nonce = nonce; fees = bump_fee_overrides tx.fees; fee_bumps = suc tx.fee_bumps }
    else record tx { nonce = nonce }

-- The result of what is still to do, and the transactions that it sends.
abbrev pub Sends : Type 0
Sends = Result Thrown String × List Built

module _ (network : Network) where
  -- The fresh nonce may fail to be read, which ends the loop.
  unfoldable pub send_rebuilt : Built → (Built → Sends) → Result ErrorValue ℕ → Sends
  unfolding rebuild
  send_rebuilt tx again (err e) = (err (Thrown.failed e), [])
  send_rebuilt tx again (ok nonce) = again (rebuild nonce tx)

  -- What follows an attempt: with none left its error is thrown, after a conflict the transaction is
  -- rebuilt, and otherwise the same is sent again.
  unfoldable pub after_send : ℕ → ℕ → Built → (Built → Sends) → Result ErrorValue String → Sends
  unfolding send_rebuilt is_nonce_conflict_error
  after_send left attempt tx again (ok hash) = (ok hash, [])
  after_send left attempt tx again (err e) =
      if left == 0
      then (err (Thrown.failed e), [])
      else if is_nonce_conflict_error network.matches e 0
      then send_rebuilt tx again (network.pending attempt)
      else again tx

  -- The loop, with the attempts left and the next one's number.
  unfoldable pub send_loop : ℕ → ℕ → Built → Sends
  unfolding after_send
  send_loop zero attempt tx = (err Thrown.unreachable, [])
  send_loop (suc left) attempt tx =
      let (result, rest) =
        after_send left attempt tx (λ t. send_loop left (suc attempt) t)
          (network.confirm attempt) in
      (result, tx ∷ rest)

  -- `sendConfirmExecution`, once the first fees and the first nonce were asked for.
  unfoldable pub start_sends : Result ErrorValue FeeOverrides → Result ErrorValue ℕ → Sends
  unfolding send_loop
  start_sends (err e) nonce = (err (Thrown.failed e), [])
  start_sends (ok fees) (err e) = (err (Thrown.failed e), [])
  start_sends (ok fees) (ok nonce) =
      send_loop max_confirm_attempts 1 (record { nonce = nonce; fees = fees; fee_bumps = 0 })

  unfoldable pub send_confirm_execution : Sends
  unfolding start_sends initial_fee_overrides
  send_confirm_execution = start_sends (initial_fee_overrides network.fee_data) (network.pending 0)
