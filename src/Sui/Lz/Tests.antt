-- ===== src/Sui/Lz/Tests.antt =====
-- An application whose settings let a proof through, and one whose DVN is another.
use bosphor.Base.{
  String, ◌≡◌, refl, none, some, List, [], ◌∷◌, length, All, if◌then◌else◌, str_eq, true,
}
use bosphor.Base.Result.{ok}
use bosphor.Sui.Lz.Values.{
  ProtoValue, string_value, struct_value, no_fields, field, normalize_address,
}
use bosphor.Sui.Lz.Ptb.{LzInfra}
use bosphor.Sui.Lz.Checks.{Node, Service}
use bosphor.Sui.Lz.{Call, quotes, sends, quote_lz_fee, serve_all, fresh}
use bosphor.Sui.Lz.Seen.{Vetted}
use bosphor.Sui.Lz.Preflight.{nodes_after, serve_all-Vetted}

abbrev infra : LzInfra
infra = record {
  endpoint_v2 = "0xe";
  endpoint_v2_obj = "0xe1";
  uln302 = "0xf";
  uln302_obj = "0xf1";
  executor_pkg = "0x3";
  executor_obj = "0x31";
  exec_fee_lib = "0x4";
  exec_fee_lib_obj = "0x41";
  dvn_pkg = "0x5";
  dvn_obj = "0x51";
  dvn_fee_lib = "0x6";
  dvn_fee_lib_obj = "0x61";
  price_feed = "0x7";
  price_feed_obj = "0x71";
  treasury = "0x8";
  treasury_obj = "0x81";
}

abbrev service : Service
service = record {
  app = record {
    package_id = "0xa";
    config_id = "0xc";
    oapp_id = "0xd";
    messaging_channel = "0xb";
    infra = infra;
  };
  address = "0x2";
  lower_case = λ text. text;
  get_bytes = λ hex. ok (1 ∷ 2 ∷ []);
  blob_field = λ id. ok (3 ∷ []);
  default_lz_options = 0 ∷ 3 ∷ [];
}

abbrev one_field : String → ProtoValue → ProtoValue
one_field key value = struct_value (field key value no_fields)

-- A worker whose cap is its own object.
abbrev worker : String → ProtoValue
worker cap = one_field "worker" (one_field "worker_cap" (one_field "id" (string_value cap)))

abbrev json_of : String → ProtoValue
json_of id =
    if str_eq id "0xc"
    then one_field "relayer" (string_value "0x02")
    else if str_eq id "0xb"
    then one_field "oapp" (string_value "0xd")
    else if str_eq id "0x31"
    then worker "0x99"
    else worker "0x98"

abbrev node : Node
node = record {
  object_json = λ id. ok (some (json_of id));
  effective_configs = λ sender eid. ok (some (1 ∷ []), some (2 ∷ []));
  parse_executor = λ bytes. ok (record { max_message_size = 10; executor = "0x99" });
  parse_uln = λ bytes. ok (record {
    confirmations = 1;
    required_dvns = "0x0098" ∷ [];
    optional_dvns = [];
    optional_dvn_threshold = 0;
  });
  simulate = λ commands.
      ok (none ∷ some (7 ∷ 1 ∷ 0 ∷ 0 ∷ 0 ∷ 0 ∷ 0 ∷ 0 ∷ 0 ∷ 0 ∷ 0 ∷ 0 ∷ 0 ∷ 0 ∷ 0 ∷ 0 ∷ []) ∷ []);
  committed_epochs = λ id. ok none;
  sign_and_execute = λ commands. ok (record { digest = "d"; success = true });
}

fee_quoted : (quote_lz_fee service node "0x01" "b" 9 30101 fresh).0 ≡ ok 263
unfolding quote_lz_fee normalize_address
fee_quoted = refl

abbrev calls : List Call
calls = quotes "0x01" "b" 9 30101 node ∷ sends "0x01" "b" 9 30101 263 node ∷ []

signed_once : length (serve_all service calls fresh).signed ≡ 1
unfolding serve_all normalize_address
signed_once = refl

serve_all-Vetted_example :
    All (Vetted service (nodes_after service calls [])) (serve_all service calls fresh).signed
serve_all-Vetted_example = serve_all-Vetted service calls
