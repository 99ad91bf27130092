-- ===== src/Walrus/TopUp.antt =====
-- `WalTopUpService` of relayer/src/walrus/wal-topup.service.ts. Balances are in the smallest unit; the
-- swap, which builds and sends a transaction, is an answer of the outside, as are the balance reads.
pub mod Serial
use bosphor.Base.{
  ℕ, String, Bool, true, false, not, ◌+◌, suc, Option, none, some, List, [], ◌∷◌, ◌≡◌, ltb, leb,
  if◌then◌else◌,
}
use bosphor.Base.Result.{Result, ok, err}

pub record WalTopUpSettings : Type 0 where
  pub min_balance_mist : ℕ
  pub top_up_sui_mist : ℕ
  pub sui_reserve_mist : ℕ
  pub swap_supported : Bool

-- The answers during one run: the two balances, and the swap with its wait and the new balance.
pub record Answers : Type 0 where
  pub wal_balance : Result String ℕ
  pub sui_balance : Result String ℕ
  pub swap : Result String ℕ

-- What a run does outside: the gauges it sets, the counter of top-ups, and the swap with its amount.
pub data Effect : Type 0 where
  set_wal_balance set_sui_balance : ℕ → Effect
  record_success record_failure record_insufficient_sui : Effect
  swap_sui_for_wal : ℕ → Effect

module _ (s : WalTopUpSettings) where
  -- The swap and what follows it.
  abbrev pub top_up : Result String ℕ → List Effect
  top_up (ok new_balance) =
      Effect.swap_sui_for_wal s.top_up_sui_mist
      ∷ Effect.set_wal_balance new_balance
      ∷ Effect.record_success
      ∷ []
  top_up (err thrown) = Effect.swap_sui_for_wal s.top_up_sui_mist ∷ Effect.record_failure ∷ []

  -- What a low balance leads to, by the SUI balance if it was read.
  unfoldable pub refill : Result String ℕ → Result String ℕ → List Effect
  refill (err thrown) swap = if not s.swap_supported then Effect.record_failure ∷ [] else []
  refill (ok sui_balance) swap =
      if not s.swap_supported
      then Effect.record_failure ∷ []
      else if ltb sui_balance (s.top_up_sui_mist + s.sui_reserve_mist)
      then Effect.record_insufficient_sui ∷ []
      else top_up swap

  abbrev pub publish_sui : Result String ℕ → List Effect → List Effect
  publish_sui (ok sui_balance) rest = Effect.set_sui_balance sui_balance ∷ rest
  publish_sui (err thrown) rest = rest

  -- `run`, from the read of the WAL balance.
  unfoldable pub run_checked : Result String ℕ → Answers → List Effect
  unfolding refill
  run_checked (err thrown) a = []
  run_checked (ok wal_balance) a =
      Effect.set_wal_balance wal_balance
      ∷ publish_sui a.sui_balance
          (if leb s.min_balance_mist wal_balance then [] else refill a.sui_balance a.swap)

  unfoldable pub run : Answers → List Effect
  unfolding run_checked
  run a = run_checked a.wal_balance a

-- `inFlight`, and how many runs were started and have ended.
pub record TopUpState : Type 0 where
  pub in_flight : Bool
  pub started : ℕ
  pub ended : ℕ

-- `ensureWal`: a caller during a run waits for that one.
unfoldable pub ensure_wal : TopUpState → TopUpState
ensure_wal t = if t.in_flight then t else record t { in_flight = true; started = suc t.started }

-- The run's `finally`.
unfoldable pub settle : TopUpState → TopUpState
settle t = record t { in_flight = false; ended = suc t.ended }
