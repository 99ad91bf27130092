-- ===== src/Sui/Lz/Checks.antt =====
-- What `assertRelayerAuthority` and `assertSendPathConfig` of relayer/src/chain/sui/sui-lz.service.ts check
-- on Sui, behind their caches. The ledger's answers, BCS and the codecs of texts are the outside's.
use bosphor.Base.{
  ℕ, String, Bool, not, Option, none, some, List, [], ◌∷◌, ◌++◌, map, length, if◌then◌else◌, ◌==◌,
  str_eq,
}
use bosphor.Base.Result.{Result, ok, err, ◌>>=◌}
use bosphor.Sui.Lz.Values.{ProtoValue, proto_string, truthy, normalize_address}
use bosphor.Sui.Lz.Ptb.{LzApp, Command}

pub record ExecutorConfig : Type 0 where
  pub max_message_size : ℕ
  pub executor : String

pub record UlnConfig : Type 0 where
  pub confirmations : ℕ
  pub required_dvns : List String
  pub optional_dvns : List String
  pub optional_dvn_threshold : ℕ

-- What the calls throw, with the addresses or numbers that the message names; `outside` is a throw
-- of what they call.
pub data LzError : Type 0 where
  outside : String → LzError
  no_relayer no_sender zero_fee no_fee not_configured tx_failed : LzError
  relayer_mismatch executor_mismatch dvn_mismatch : String → String → LzError
  no_cap_identity no_epochs : String → LzError
  no_send_config : ℕ → LzError
  dvn_count : List String → ℕ → LzError

pub record Executed : Type 0 where
  pub digest : String
  pub success : Bool

-- The answers during a call: an object's JSON, the bytes of the two effective configs of a sender for
-- an endpoint, their BCS, the return bytes of a simulated transaction's commands, and of a read of the
-- committed epochs, and what signing and executing a transaction gives.
pub record Node : Type 0 where
  pub object_json : String → Result LzError (Option ProtoValue)
  pub effective_configs : String → ℕ → Result LzError (Option (List ℕ) × Option (List ℕ))
  pub parse_executor : List ℕ → Result LzError ExecutorConfig
  pub parse_uln : List ℕ → Result LzError UlnConfig
  pub simulate : List Command → Result LzError (List (Option (List ℕ)))
  pub committed_epochs : String → Result LzError (Option (List ℕ))
  pub sign_and_execute : List Command → Result LzError Executed

-- The settings, and the texts' codecs: `getBytes` of ethers and `walrusBlobIdToField` may throw.
pub record Service : Type 0 where
  pub app : LzApp
  pub address : String
  pub lower_case : String → String
  pub get_bytes : String → Result LzError (List ℕ)
  pub blob_field : String → Result LzError (List ℕ)
  pub default_lz_options : List ℕ

abbrev pub required : {A : Type 0} → Option A → LzError → Result LzError A
required none e = err e
required (some a) e = ok a

module _ (service : Service) where
  abbrev pub normalized : String → String
  normalized = normalize_address service.lower_case

  module _ (node : Node) where
    -- The body of `assertRelayerAuthority` behind its cache.
    unfoldable pub check_authority : Result LzError Unit
    unfolding proto_string truthy
    check_authority = do
      json ← node.object_json service.app.config_id
      authorized ← required (truthy (proto_string json ("relayer" ∷ []))) no_relayer
      if not (str_eq (normalized authorized) (normalized service.address))
          then err (relayer_mismatch (normalized authorized) (normalized service.address))
          else ok tt

    abbrev cap_path : List String
    cap_path = "worker" ∷ "worker_cap" ∷ []

    abbrev cap_address : Option ProtoValue → Option String
    cap_address json = elim (proto_string json (cap_path ++ ("cap_type" ∷ "@variant" ∷ []))) [
      | none ↦ proto_string json (cap_path ++ ("id" ∷ []))
      | some variant ↦
          if str_eq variant "Package"
          then proto_string json (cap_path ++ ("cap_type" ∷ "pos0" ∷ []))
          else proto_string json (cap_path ++ ("id" ∷ []))
    ]

    unfoldable pub get_worker_cap_address : String → String → Result LzError String
    unfolding proto_string truthy
    get_worker_cap_address object_id label = do
      json ← node.object_json object_id
      address ← required (truthy (cap_address json)) (no_cap_identity label)
      ok (normalized address)

    abbrev pub check_executor : ExecutorConfig → String → Result LzError Unit
    check_executor config executor_cap =
        if str_eq (normalized config.executor) executor_cap
        then ok tt
        else err (executor_mismatch (normalized config.executor) executor_cap)

    -- The required DVNs, normalized, and the number of optional ones.
    abbrev pub check_dvns : List String → ℕ → String → Result LzError Unit
    check_dvns [] optional dvn_cap = err (dvn_count [] optional)
    check_dvns (dvn ∷ []) optional dvn_cap =
        if not (optional == 0)
        then err (dvn_count (dvn ∷ []) optional)
        else if str_eq dvn dvn_cap
        then ok tt
        else err (dvn_mismatch dvn dvn_cap)
    check_dvns (dvn ∷ other ∷ dvns) optional dvn_cap = err (dvn_count (dvn ∷ other ∷ dvns) optional)

    -- The body of `assertSendPathConfig` behind its cache.
    unfoldable pub check_send_path : ℕ → Result LzError Unit
    unfolding proto_string truthy get_worker_cap_address
    check_send_path dst_eid = do
      channel ← node.object_json service.app.messaging_channel
      sender ← required (truthy (proto_string channel ("oapp" ∷ []))) no_sender
      outputs ← node.effective_configs sender dst_eid
      exec_bytes ← required outputs.0 (no_send_config dst_eid)
      uln_bytes ← required outputs.1 (no_send_config dst_eid)
      exec_config ← node.parse_executor exec_bytes
      uln_config ← node.parse_uln uln_bytes
      executor_cap ← get_worker_cap_address service.app.infra.executor_obj "executor"
      dvn_cap ← get_worker_cap_address service.app.infra.dvn_obj "DVN"
      _ ← check_executor exec_config executor_cap
      check_dvns (map normalized uln_config.required_dvns) (length uln_config.optional_dvns) dvn_cap
