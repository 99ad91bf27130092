-- ===== src/Walrus/Tests.antt =====
-- Durations and costs at concrete inputs.
use bosphor.Base.{◌+◌, ◌*◌, ◌≤◌, ◌≡◌, refl, [], ◌++◌, true, false, arith}
use bosphor.Base.Result.{ok}
use bosphor.Walrus.StoreEpochs.{StoreEpochsPolicy, natural}
use bosphor.Walrus.WalCost.{WalCostBreakdown, compute_wal_cost, rs2}
use bosphor.Walrus.TopUp.{WalTopUpSettings, Answers, TopUpState, run, ensure_wal, settle}
use bosphor.Walrus.TopUp.Serial.{
  swapped, SwapsIfDue, IsDue, run-SwapsIfDue, TopUpSteps, IsSerial, TopUpSteps-IsSerial,
}
use bosphor.Walrus.WalCost.Laws.{Covers, state_of, compute_wal_cost-Covers}

abbrev policy : StoreEpochsPolicy
policy = record { default_epochs = 5; max_epochs = 53 }

-- A blob of 1,000,000 bytes on 1000 shards for 5 epochs.
compute_wal_cost-Covers_example :
    (b : WalCostBreakdown) × (compute_wal_cost
        (natural 1000000)
        (natural 5)
        (state_of 5 1000 11 20 rs2)
      ≡ ok b)
    × (b.unencoded_size ≡ 1000000)
    × Covers b
compute_wal_cost-Covers_example =
    compute_wal_cost-Covers 5 1000 11 20 rs2 1000000 (omega arith) (omega arith)

abbrev wallet : WalTopUpSettings
wallet = record {
  min_balance_mist = 500;
  top_up_sui_mist = 1000;
  sui_reserve_mist = 1000;
  swap_supported = true;
}

abbrev low_wal : Answers
low_wal = record { wal_balance = ok 100; sui_balance = ok 2500; swap = ok 1100 }

run-SwapsIfDue_example : SwapsIfDue wallet (IsDue wallet low_wal) (run wallet low_wal)
run-SwapsIfDue_example = run-SwapsIfDue wallet low_wal

abbrev idle : TopUpState
idle = record { in_flight = false; started = 4; ended = 4 }

-- Two calls, the end of their run, and a call.
steps :
    TopUpSteps wallet idle
      (ensure_wal (settle (ensure_wal (ensure_wal idle))))
      (run wallet low_wal ++ run wallet low_wal ++ [])
unfolding ensure_wal settle run
steps = TopUpSteps.then_called low_wal (
    TopUpSteps.then_finished
      (TopUpSteps.then_called low_wal (TopUpSteps.then_called low_wal TopUpSteps.none_yet)) refl)

TopUpSteps-IsSerial_example :
    IsSerial (ensure_wal (settle (ensure_wal (ensure_wal idle))))
    × (swapped (run wallet low_wal ++ run wallet low_wal ++ []) + 1000 * 4
        ≤ 1000 * (ensure_wal (settle (ensure_wal (ensure_wal idle)))).started)
TopUpSteps-IsSerial_example = TopUpSteps-IsSerial wallet steps refl
