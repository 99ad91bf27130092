-- ===== src/Sui/Lz/Settings.antt =====
-- What a passed check of relayer/src/chain/sui/sui-lz.service.ts says of the settings on Sui.
use bosphor.Base.{
  ℕ, String, Option, none, some, List, [], ◌∷◌, map, ◌≡◌, refl, sym, ap, ◌∙◌, length, eq_iff, arith,
}
use bosphor.Base.Result.{ok, next-ok, ok-injective}
use bosphor.Sui.Lz.Values.{ProtoValue, proto_string, truthy}
use bosphor.Sui.Lz.Checks.{
  ExecutorConfig, UlnConfig, LzError, Node, Service, required, normalized, check_authority,
  check_executor, check_dvns, check_send_path, get_worker_cap_address, no_relayer,
}

module _ (service : Service) (node : Node) where
  -- The configuration object on Sui names the relayer's own address.
  pub record Authorises : Type 0 where
    pub json : Option ProtoValue
    pub authorized : String
    pub read : node.object_json service.app.config_id ≡ ok json
    pub names : proto_string json ("relayer" ∷ []) ≡ some authorized
    pub same : normalized service authorized ≡ normalized service service.address

  -- For an endpoint, the effective configs name the executor and, alone, the DVN that are wired in.
  pub record LetsThrough (dst_eid : ℕ) : Type 0 where
    pub sender : String
    pub dvn : String
    pub exec_bytes : List ℕ
    pub uln_bytes : List ℕ
    pub exec : ExecutorConfig
    pub uln : UlnConfig
    pub configs : node.effective_configs sender dst_eid ≡ ok (some exec_bytes, some uln_bytes)
    pub exec_read : node.parse_executor exec_bytes ≡ ok exec
    pub uln_read : node.parse_uln uln_bytes ≡ ok uln
    pub executor :
        get_worker_cap_address service node service.app.infra.executor_obj "executor"
        ≡ ok (normalized service exec.executor)
    pub dvn_cap :
        get_worker_cap_address service node service.app.infra.dvn_obj "DVN"
        ≡ ok (normalized service dvn)
    pub only : uln.required_dvns ≡ dvn ∷ []
    pub no_other : uln.optional_dvns ≡ []

  truthy-some :
      (o : Option String) (text : String) (e : LzError)
      → required (truthy o) e ≡ ok text
      → o ≡ some text
  unfolding truthy
  truthy-some none text e h = cc
  truthy-some (some t) text e h = ground arith

  pub check_authority-Authorises : check_authority service node ≡ ok tt → Authorises
  unfolding check_authority
  check_authority-Authorises h =
      let (json, read, h1) = next-ok (node.object_json service.app.config_id) _ tt h in
      let (authorized, named, h2) =
        next-ok (required (truthy (proto_string json ("relayer" ∷ []))) no_relayer) _ tt h1 in
      record {
        json = json;
        authorized = authorized;
        read = read;
        names = truthy-some _ authorized no_relayer named;
        same =
            ground
              (arith, eq_iff (normalized service authorized) (normalized service service.address));
      }

  required-some :
      {A : Type 0} (o : Option A) (a : A) (e : LzError) → required o e ≡ ok a → o ≡ some a
  required-some none a e h = cc
  required-some (some b) a e h = ap some (ok-injective b a h)

  check_executor-same :
      (config : ExecutorConfig) (cap : String)
      → check_executor service node config cap ≡ ok tt
      → normalized service config.executor ≡ cap
  check_executor-same config cap h = ground (arith, eq_iff (normalized service config.executor) cap)

  -- One DVN, of which the normal form is the cap, and none to choose from.
  check_dvns-same :
      (dvns : List String) (optional : List String) (cap : String)
      → check_dvns service node (map (normalized service) dvns) (length optional) cap ≡ ok tt
      → (dvn : String) × (dvns ≡ dvn ∷ []) × (normalized service dvn ≡ cap) × (optional ≡ [])
  check_dvns-same [] optional cap h = cc
  check_dvns-same (dvn ∷ other ∷ dvns) optional cap h = cc
  check_dvns-same (dvn ∷ []) (o ∷ optional) cap h = absurd (ground arith)
  check_dvns-same (dvn ∷ []) [] cap h =
      (dvn, refl, ground (arith, eq_iff (normalized service dvn) cap), refl)

  pub check_send_path-LetsThrough :
      (dst_eid : ℕ) → check_send_path service node dst_eid ≡ ok tt → LetsThrough dst_eid
  unfolding check_send_path
  check_send_path-LetsThrough dst_eid h =
      let (channel, _, h1) = next-ok (node.object_json service.app.messaging_channel) _ tt h in
      let (sender, _, h2) =
        next-ok (required (truthy (proto_string channel ("oapp" ∷ []))) _) _ tt h1 in
      let (outputs, seen, h3) = next-ok (node.effective_configs sender dst_eid) _ tt h2 in
      let (exec_bytes, first, h4) = next-ok (required outputs.0 _) _ tt h3 in
      let (uln_bytes, second, h5) = next-ok (required outputs.1 _) _ tt h4 in
      let (exec, exec_read, h6) = next-ok (node.parse_executor exec_bytes) _ tt h5 in
      let (uln, uln_read, h7) = next-ok (node.parse_uln uln_bytes) _ tt h6 in
      let (executor_cap, executor, h8) =
        next-ok (get_worker_cap_address service node service.app.infra.executor_obj "executor") _ tt
          h7 in
      let (dvn_cap, dvn_read, h9) =
        next-ok (get_worker_cap_address service node service.app.infra.dvn_obj "DVN") _ tt h8 in
      let (_, same, h10) = next-ok (check_executor service node exec executor_cap) _ tt h9 in
      let (dvn, only, dvn_same, no_other) =
        check_dvns-same uln.required_dvns uln.optional_dvns dvn_cap h10 in
      record {
        sender = sender;
        dvn = dvn;
        exec_bytes = exec_bytes;
        uln_bytes = uln_bytes;
        exec = exec;
        uln = uln;
        configs =
            seen
            ∙ ap ok (λ i. (
              required-some outputs.0 exec_bytes _ first i,
              required-some outputs.1 uln_bytes _ second i,
            ));
        exec_read = exec_read;
        uln_read = uln_read;
        executor = executor ∙ ap ok (sym (check_executor-same exec executor_cap same));
        dvn_cap = dvn_read ∙ ap ok (sym dvn_same);
        only = only;
        no_other = no_other;
      }
