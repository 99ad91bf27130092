-- ===== src/Sui/Lz.antt =====
-- `SuiLzService` of relayer/src/chain/sui/sui-lz.service.ts: what it checks before a proof is quoted or
-- sent, and the calls.
pub mod Values
pub mod Ptb
pub mod Checks
pub mod Settings
pub mod Seen
pub mod Preflight
pub mod Tests
use bosphor.Base.{
  ℕ, String, Bool, true, false, not, ◌||◌, Option, none, some, List, [], ◌∷◌, ◌++◌, map, length,
  any, take, if◌then◌else◌, ltb, ◌==◌, str_eq,
}
use bosphor.Base.Result.{Result, ok, err, ◌>>=◌}
use bosphor.Codec.Bytes.{number_le}
use bosphor.Sui.Lz.Values.{ProtoValue, proto_string, truthy, normalize_address}
use bosphor.Sui.Lz.Ptb.{LzApp, ProofMessage, Command, quote_ptb, send_ptb}
use bosphor.Sui.Lz.Checks.{
  LzError, Executed, Node, Service, required, check_authority, check_send_path, outside, no_relayer,
  no_sender, zero_fee, no_fee, not_configured, tx_failed, no_epochs,
}

-- The caches, and each transaction that was signed, with its destination.
pub record State : Type 0 where
  pub relayer_authority_validated : Bool
  pub validated_dst_eids : List ℕ
  pub signed : List (ℕ × List Command)

-- Texts that are no addresses, and configured texts that are empty.
abbrev is_missing : String → Bool
is_missing text = str_eq text ""

module _ (service : Service) where
  abbrev is_configured : Bool
  is_configured =
      let app = service.app in
      not (
        is_missing app.config_id
        || is_missing app.oapp_id
        || is_missing app.messaging_channel
        || is_missing app.infra.endpoint_v2
        || is_missing app.infra.uln302_obj)

  module _ (node : Node) where
    abbrev pub note_authority : Result LzError Unit → State → Result LzError Unit × State
    note_authority (err e) s = (err e, s)
    note_authority (ok checked) s = (ok tt, record s { relayer_authority_validated = true })

    unfoldable pub assert_relayer_authority : State → Result LzError Unit × State
    unfolding check_authority
    assert_relayer_authority s =
        if s.relayer_authority_validated
        then (ok tt, s)
        else note_authority (check_authority service node) s

    abbrev pub note_send_path : ℕ → Result LzError Unit → State → Result LzError Unit × State
    note_send_path dst_eid (err e) s = (err e, s)
    note_send_path dst_eid (ok checked) s =
        (ok tt, record s { validated_dst_eids = dst_eid ∷ s.validated_dst_eids })

    abbrev pub then_send_path : ℕ → Result LzError Unit × State → Result LzError Unit × State
    then_send_path dst_eid (err e, s) = (err e, s)
    then_send_path dst_eid (ok checked, s) =
        if any (λ eid. eid == dst_eid) s.validated_dst_eids
        then (ok tt, s)
        else note_send_path dst_eid (check_send_path service node dst_eid) s

    unfoldable pub assert_send_path_config : ℕ → State → Result LzError Unit × State
    unfolding assert_relayer_authority check_send_path
    assert_send_path_config dst_eid s = then_send_path dst_eid (assert_relayer_authority s)

    -- `readCommittedStorageEpochs`.
    unfoldable pub read_committed_storage_epochs : String → Result LzError ℕ
    read_committed_storage_epochs intent_id = do
      raw ← node.committed_epochs intent_id
      bytes ← required raw (no_epochs intent_id)
      if not (length bytes == 4) then err (no_epochs intent_id) else ok (number_le bytes)

    -- The arguments that both transactions make of an intent.
    unfoldable pub proof_message : String → String → ℕ → ℕ → Result LzError ProofMessage
    proof_message intent_id blob_id end_epoch dst_eid = do
      id ← service.get_bytes intent_id
      blob ← service.blob_field blob_id
      ok (record {
        intent_id = id;
        blob_id = blob;
        end_epoch = end_epoch;
        dst_eid = dst_eid;
        options = service.default_lz_options;
      })

    abbrev last_output : List (Option (List ℕ)) → Option (List ℕ)
    last_output [] = none
    last_output (output ∷ []) = output
    last_output (first ∷ output ∷ outputs) = last_output (output ∷ outputs)

    abbrev native_fee_of : List ℕ → Result LzError ℕ
    native_fee_of value =
        if ltb (length value) 16
        then err no_fee
        else if number_le (take 8 value) == 0
        then err zero_fee
        else ok (number_le (take 8 value))

    unfoldable pub simulate_fee : String → String → ℕ → ℕ → Result LzError ℕ
    unfolding proof_message quote_ptb
    simulate_fee intent_id blob_id end_epoch dst_eid = do
      message ← proof_message intent_id blob_id end_epoch dst_eid
      outputs ← node.simulate (quote_ptb service.app message)
      value ← required (last_output outputs) no_fee
      native_fee_of value

    -- What follows the check of the send path, which a throw skips.
    abbrev pub checked :
        {A : Type 0}
        → Result LzError Unit × State
        → (State → Result LzError A × State)
        → Result LzError A × State
    checked (err e, s) next = (err e, s)
    checked (ok done, s) next = next s

    unfoldable pub quote_lz_fee : String → String → ℕ → ℕ → State → Result LzError ℕ × State
    unfolding assert_send_path_config simulate_fee
    quote_lz_fee intent_id blob_id end_epoch dst_eid s =
        if not is_configured
        then (err not_configured, s)
        else checked (assert_send_path_config dst_eid s)
            (λ t. (simulate_fee intent_id blob_id end_epoch dst_eid, t))

    abbrev receipt : Executed → Result LzError String
    receipt done = if not done.success then err tx_failed else ok done.digest

    abbrev pub sign : ℕ → Result LzError (List Command) → State → Result LzError String × State
    sign dst_eid (err e) s = (err e, s)
    sign dst_eid (ok commands) s = (
      (do done ← node.sign_and_execute commands; receipt done),
      record s { signed = s.signed ++ ((dst_eid, commands) ∷ []) },
    )

    abbrev pub build : String → String → ℕ → ℕ → ℕ → Result LzError (List Command)
    build intent_id blob_id end_epoch dst_eid fee_amount = do
      message ← proof_message intent_id blob_id end_epoch dst_eid
      ok (send_ptb service.app message fee_amount)

    unfoldable pub lz_send_proof :
        String → String → ℕ → ℕ → ℕ → State → Result LzError String × State
    unfolding assert_send_path_config proof_message send_ptb
    lz_send_proof intent_id blob_id end_epoch dst_eid fee_amount s =
        if not is_configured
        then (err not_configured, s)
        else checked (assert_send_path_config dst_eid s)
            (λ t. sign dst_eid (build intent_id blob_id end_epoch dst_eid fee_amount) t)

-- The calls of the processor, each with the answers during it.
pub data Call : Type 0 where
  quotes : String → String → ℕ → ℕ → Node → Call
  sends : String → String → ℕ → ℕ → ℕ → Node → Call

module _ (service : Service) where
  unfoldable pub serve : Call → State → State
  unfolding quote_lz_fee lz_send_proof
  serve (quotes intent_id blob_id end_epoch dst_eid node) s =
      (quote_lz_fee service node intent_id blob_id end_epoch dst_eid s).1
  serve (sends intent_id blob_id end_epoch dst_eid fee_amount node) s =
      (lz_send_proof service node intent_id blob_id end_epoch dst_eid fee_amount s).1

  unfoldable pub serve_all : List Call → State → State
  unfolding serve
  serve_all [] s = s
  serve_all (c ∷ calls) s = serve_all calls (serve c s)

abbrev pub fresh : State
fresh = record { relayer_authority_validated = false; validated_dst_eids = []; signed = [] }
