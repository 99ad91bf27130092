-- ===== src/Processor/Tests.antt =====
-- Attempts on one concrete row, and the theorems about attempts applied there.
use bosphor.Base.{
  ℕ, String, Bool, ◌+◌, ◌≤◌, ◌≡◌, refl, Option, none, some, [], ◌∷◌, true, false, if◌then◌else◌,
  length, All, arith,
}
use bosphor.Base.Result.{ok, err}
use bosphor.Staged.Types.{Row, map_row}
use bosphor.Staged.Progress.{fetch_bytes}
use bosphor.Staged.Store.{new_row, staged_bytes_total}
use bosphor.Walrus.StoreEpochs.{natural}
use bosphor.Processor.World.{Config, Env, World}
use bosphor.Processor.World.{read_table, ◌>>=◌, call, emit, persist, pure}
use bosphor.Processor.Store.{upload_bytes, upload_unless, upload_step, fetch}
use bosphor.Processor.Triple.{Ends}
use bosphor.Ingest.{Limits}
use bosphor.Processor.Recovery.{Within, recover_missing_bytes, recover_missing_bytes-Within}
use bosphor.Processor.Tick.{tick_stores, ready_stores, is_skipped}
use bosphor.Processor.Tick.Ready.{IsReady, tick_stores-IsReady}
use bosphor.Staged.Lease.{IsLeased}
use bosphor.Staged.Claim.{drain_due}
use bosphor.Lifecycle.{IntentCommitment, received}
use bosphor.Processor.Spend.{Clears}
use bosphor.Processor.Spend.Gate.{store-Cleared}
use bosphor.Processor.World.{eth}
use bosphor.Processor.Attempt.{store}
use bosphor.Processor.Outcome.{store-Ends}
use bosphor.Processor.Outcome.Rows.{Is, IsEnded, Matches, SafeIfPost, uploads, unrecorded}
use bosphor.Processor.Run.{Race, run_store}

abbrev pub config : Config
config = record {
  evm_dst_eid = 40161;
  solana_src_eid = 40168;
  store_concurrency = 4;
  batch_size = 20;
  backoff_base_ms = 1000;
  backoff_cap_ms = 60000;
  max_store_attempts = 8;
  return_max_attempts = 50;
  lease_ms = 600000;
  break_even_enabled = false;
  guard_return_lz_fee_mist = 0;
  guard_sui_gas_mist = 0;
  epochs = record { default_epochs = 5; max_epochs = 53 };
  network = "testnet";
}

-- Every service answers, but for the return leg, which `up` decides.
abbrev services : Bool → Env ℕ
services up = record {
  time = λ n. 1000 + n;
  blob_id_matches = λ _ _. true;
  field_of_blob_id = λ b. ok b;
  read_committed_epochs = λ _. ok 5;
  walrus_max_epochs = ok (natural 53);
  escrow_reader = none;
  break_even = none;
  upload = λ _ epochs. ok (record { blob_id = "b"; sui_object_id = "o"; end_epoch = epochs });
  execute_store = λ _ _ _ _. ok "d";
  wait_for_transaction = λ _. ok tt;
  quote_lz_fee = λ _ _ _ _. if up then ok 100 else err "no quote";
  lz_send_proof = λ _ _ _ _ _. ok "lz";
  evm_confirm = λ _ _ _. err "no gas";
  solana_can_confirm = false;
  solana_confirm = λ _ _ _. err "no signer";
  hop_recorded = λ _. true;
  queue_refuses = λ _. none;
  persist_refused = none;
  fetch_refused = none;
  ledger_installed = false;
  ledger_up = false;
  ledger_flags = false;
}

abbrev pub ready : Row
ready = record (new_row "i1" 10) {
  bytes = some (1 ∷ 2 ∷ []);
  blob_id = some "b";
  size = some 2;
  deadline = some 9000;
  received = true;
  src_eid = some 40161;
  committed_blob_id = some "0xb";
  storage_epochs = some 5;
}

abbrev world : World ℕ
world = record { table = ready ∷ []; feed = []; ledger = []; trace = []; reads = 0 }

matches : Is (map_row ready) (Matches (map_row ready)) world
unfolding uploads unrecorded
matches = record { fact = (ready, refl, ((refl, refl, refl), refl)) }

store-Ends_example :
    Ends
      (λ _. Is (map_row ready) IsEnded)
      (SafeIfPost (map_row ready))
      (store config (services false) (map_row ready) "0xs" none world)
store-Ends_example = store-Ends config (services false) (map_row ready) "0xs" none world matches

-- An attempt whose return leg fails, an expiry sweep, and its state.
abbrev after : World ℕ
after = (run_store config (services false) (map_row ready) "0xs" none Race.in_time world).1

-- An upload that `persistUpload` is refused for, and that of the retry.
abbrev lossy : World ℕ
lossy =
    (upload_step config (record (services true) { persist_refused = some "connection lost" })
      (map_row ready) "0xs" none 5 world).1

abbrev retried : World ℕ
retried = (upload_step config (services true) (map_row ready) "0xs" none 5 lossy).1

uploaded_again : (uploads "i1" retried.trace ≡ 2) × (unrecorded "i1" retried.trace ≡ 1)
unfolding uploads unrecorded upload_step upload_unless upload_bytes fetch read_table fetch_bytes
    ◌>>=◌ call emit persist pure
uploaded_again = (refl, refl)

-- The guard agrees to five epochs, and the return leg fails.
abbrev guarded : Env ℕ
guarded = record (services false) {
  escrow_reader = some (λ _ _. ok (some (record { escrow_native = 9; origin_token = eth })));
  break_even =
      some (λ _. ok (record { proceed = true; escrow_usd = 9; cost_usd = 5; reason = "covered" }));
}

abbrev with_guard : Config
with_guard = record config { break_even_enabled = true }

store-Cleared_example :
    Ends
      (λ _ v. All (Clears with_guard guarded (map_row ready) "0xs" none) v.trace)
      (λ _ v. All (Clears with_guard guarded (map_row ready) "0xs" none) v.trace)
      (store with_guard guarded (map_row ready) "0xs" none world)
store-Cleared_example = store-Cleared with_guard guarded (map_row ready) "0xs" none world tt

-- The feed knows the row's commitment and its sender.
abbrev pub known : String → Option IntentCommitment
known _ = some (record {
  intent_id = "i1";
  committed_blob_id = "0xb";
  size = 2;
  deadline = 9000;
  sender = some "0xs";
  status = received;
})

one_store : length (tick_stores 1000 (λ _. false) known config "A" (λ _. false) (ready ∷ [])).0 ≡ 1
unfolding tick_stores drain_due ready_stores is_skipped
one_store = refl

tick_stores-IsReady_example :
    All
      (λ r. IsReady 1000 (λ _. false) known r × IsLeased 1000 "A" 600000 r.row)
      (tick_stores 1000 (λ _. false) known config "A" (λ _. false) (ready ∷ [])).0
    × (length (tick_stores 1000 (λ _. false) known config "A" (λ _. false) (ready ∷ [])).0 ≤ 4)
tick_stores-IsReady_example =
    tick_stores-IsReady 1000 (λ _. false) known config "A" (λ _. false) (ready ∷ []) (refl, tt)

abbrev limits : Limits
limits = record { max_ingest_bytes = 10; max_staged_bytes = 20 }

-- A row that never got its bytes; the aggregator serves three of them.
abbrev without_bytes : Row
without_bytes = record ready { bytes = none; size = none }

recover_missing_bytes-Within_example :
    Within limits
      (λ _. "b")
      (λ _ _. true)
      (λ f. ok f)
      (λ _. ok (1 ∷ 2 ∷ 3 ∷ []))
      []
      60000
      (recover_missing_bytes limits
        (λ _. "b")
        (λ _ _. true)
        (λ f. ok f)
        (λ _. ok (1 ∷ 2 ∷ 3 ∷ []))
        []
        60000
        1000
        100
        20
        (without_bytes ∷ []))
unfolding staged_bytes_total
recover_missing_bytes-Within_example =
    recover_missing_bytes-Within limits (λ _. "b") (λ _ _. true) (λ f. ok f)
      (λ _. ok (1 ∷ 2 ∷ 3 ∷ [])) [] 60000 1000 100 20 (without_bytes ∷ []) ((refl, tt), omega arith)
