-- ===== src/Sui/Lz/Ptb.antt =====
-- The two programmable transactions of relayer/src/chain/sui/sui-lz.service.ts. A command's index is its
-- place in the list, as in the comments of the source.
use bosphor.Base.{ℕ, String, List, [], ◌∷◌}
use Prim.Native.String.{◌++◌ as str_append}

pub record LzInfra : Type 0 where
  pub endpoint_v2 : String
  pub endpoint_v2_obj : String
  pub uln302 : String
  pub uln302_obj : String
  pub executor_pkg : String
  pub executor_obj : String
  pub exec_fee_lib : String
  pub exec_fee_lib_obj : String
  pub dvn_pkg : String
  pub dvn_obj : String
  pub dvn_fee_lib : String
  pub dvn_fee_lib_obj : String
  pub price_feed : String
  pub price_feed_obj : String
  pub treasury : String
  pub treasury_obj : String

-- The relayer's own package and objects.
pub record LzApp : Type 0 where
  pub package_id : String
  pub config_id : String
  pub oapp_id : String
  pub messaging_channel : String
  pub infra : LzInfra

-- `result i j` is the j-th result of the command at i.
pub data Argument : Type 0 where
  object : String → Argument
  vector_u8 : List ℕ → Argument
  u64 u32 : ℕ → Argument
  result : ℕ → ℕ → Argument

pub data Command : Type 0 where
  split_gas : ℕ → Command
  move_call : String → List Argument → Command

-- What a proof says, as its arguments: the intent's id, the blob's id, and the two numbers.
pub record ProofMessage : Type 0 where
  pub intent_id : List ℕ
  pub blob_id : List ℕ
  pub end_epoch : ℕ
  pub dst_eid : ℕ
  pub options : List ℕ

abbrev message_arguments : LzApp → ProofMessage → List Argument → List Argument
message_arguments app m more =
    object app.config_id
    ∷ object app.oapp_id
    ∷ vector_u8 m.intent_id
    ∷ vector_u8 m.blob_id
    ∷ u64 m.end_epoch
    ∷ u32 m.dst_eid
    ∷ vector_u8 m.options
    ∷ more

abbrev call : String → String → List Argument → Command
call pkg function arguments = move_call (str_append pkg function) arguments

unfoldable pub quote_ptb : LzApp → ProofMessage → List Command
quote_ptb app m =
    let i = app.infra in
    call app.package_id "::lz_receiver::quote_proof" (message_arguments app m [])
    ∷ call i.endpoint_v2 "::endpoint_v2::quote"
        (object i.endpoint_v2_obj ∷ object app.messaging_channel ∷ result 0 0 ∷ [])
    ∷ call i.uln302 "::uln_302::quote" (object i.uln302_obj ∷ result 1 0 ∷ [])
    ∷ call i.executor_pkg "::executor_worker::get_fee" (object i.executor_obj ∷ result 2 0 ∷ [])
    ∷ call i.exec_fee_lib "::executor_fee_lib::get_fee"
        (object i.exec_fee_lib_obj ∷ result 3 0 ∷ [])
    ∷ call i.price_feed "::price_feed::estimate_fee_by_eid"
        (object i.price_feed_obj ∷ result 4 0 ∷ [])
    ∷ call i.exec_fee_lib "::executor_fee_lib::confirm_get_fee"
        (object i.exec_fee_lib_obj ∷ result 3 0 ∷ result 4 0 ∷ [])
    ∷ call i.executor_pkg "::executor_worker::confirm_get_fee"
        (object i.executor_obj ∷ result 2 0 ∷ result 3 0 ∷ [])
    ∷ call i.dvn_pkg "::dvn::get_fee" (object i.dvn_obj ∷ result 2 1 ∷ [])
    ∷ call i.dvn_fee_lib "::dvn_fee_lib::get_fee" (object i.dvn_fee_lib_obj ∷ result 8 0 ∷ [])
    ∷ call i.price_feed "::price_feed::estimate_fee_by_eid"
        (object i.price_feed_obj ∷ result 9 0 ∷ [])
    ∷ call i.dvn_fee_lib "::dvn_fee_lib::confirm_get_fee"
        (object i.dvn_fee_lib_obj ∷ result 8 0 ∷ result 9 0 ∷ [])
    ∷ call i.dvn_pkg "::dvn::confirm_get_fee" (object i.dvn_obj ∷ result 2 1 ∷ result 8 0 ∷ [])
    ∷ call i.uln302 "::uln_302::confirm_quote"
        (object i.uln302_obj ∷ object i.treasury_obj ∷ result 1 0 ∷ result 2 0 ∷ result 2 1 ∷ [])
    ∷ call i.endpoint_v2 "::endpoint_v2::confirm_quote"
        (object i.endpoint_v2_obj ∷ result 0 0 ∷ result 1 0 ∷ [])
    ∷ call app.package_id "::lz_receiver::confirm_quote_proof"
        (object app.config_id ∷ object app.oapp_id ∷ result 0 0 ∷ [])
    ∷ []

unfoldable pub send_ptb : LzApp → ProofMessage → ℕ → List Command
send_ptb app m fee_amount =
    let i = app.infra in
    split_gas fee_amount
    ∷ call app.package_id "::lz_receiver::lz_send_proof" (message_arguments app m (result 0 0 ∷ []))
    ∷ call i.endpoint_v2 "::endpoint_v2::send"
        (object i.endpoint_v2_obj ∷ object app.messaging_channel ∷ result 1 0 ∷ [])
    ∷ call i.uln302 "::uln_302::send" (object i.uln302_obj ∷ result 2 0 ∷ [])
    ∷ call i.executor_pkg "::executor_worker::assign_job" (object i.executor_obj ∷ result 3 0 ∷ [])
    ∷ call i.exec_fee_lib "::executor_fee_lib::get_fee"
        (object i.exec_fee_lib_obj ∷ result 4 0 ∷ [])
    ∷ call i.price_feed "::price_feed::estimate_fee_by_eid"
        (object i.price_feed_obj ∷ result 5 0 ∷ [])
    ∷ call i.exec_fee_lib "::executor_fee_lib::confirm_get_fee"
        (object i.exec_fee_lib_obj ∷ result 4 0 ∷ result 5 0 ∷ [])
    ∷ call i.executor_pkg "::executor_worker::confirm_assign_job"
        (object i.executor_obj ∷ result 3 0 ∷ result 4 0 ∷ [])
    ∷ call i.dvn_pkg "::dvn::assign_job" (object i.dvn_obj ∷ result 3 1 ∷ [])
    ∷ call i.dvn_fee_lib "::dvn_fee_lib::get_fee" (object i.dvn_fee_lib_obj ∷ result 9 0 ∷ [])
    ∷ call i.price_feed "::price_feed::estimate_fee_by_eid"
        (object i.price_feed_obj ∷ result 10 0 ∷ [])
    ∷ call i.dvn_fee_lib "::dvn_fee_lib::confirm_get_fee"
        (object i.dvn_fee_lib_obj ∷ result 9 0 ∷ result 10 0 ∷ [])
    ∷ call i.dvn_pkg "::dvn::confirm_assign_job" (object i.dvn_obj ∷ result 3 1 ∷ result 9 0 ∷ [])
    ∷ call i.uln302 "::uln_302::confirm_send" (
        object i.uln302_obj
        ∷ object i.endpoint_v2_obj
        ∷ object i.treasury_obj
        ∷ object app.messaging_channel
        ∷ result 1 0
        ∷ result 2 0
        ∷ result 3 0
        ∷ result 3 1
        ∷ [])
    ∷ call app.package_id "::lz_receiver::confirm_lz_send_proof"
        (object app.config_id ∷ object app.oapp_id ∷ result 1 0 ∷ [])
    ∷ []
