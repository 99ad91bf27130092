-- ===== src/Sui/Lz/Preflight.antt =====
-- A proof is signed only if Sui's settings were seen to let it through.
use bosphor.Base.{
  ℕ, String, Bool, true, false, List, [], ◌∷◌, ◌≡◌, refl, sym, ap, if◌then◌else◌, All, All-append,
}
use bosphor.Base.Result.{Result, ok, err, next-ok, ok-injective}
use bosphor.Sui.Lz.Ptb.{ProofMessage, Command, send_ptb}
use bosphor.Sui.Lz.Checks.{LzError, Node, Service}
use bosphor.Sui.Lz.{
  State, Call, quotes, sends, assert_send_path_config, checked, quote_lz_fee, lz_send_proof, serve,
  serve_all, fresh, sign, build, proof_message,
}
use bosphor.Sui.Lz.Seen.{Seen, Vetted, Knows, Knows-more, Passed, assert_send_path_config-Passed}

module _ (service : Service) where
  module _ (node : Node) (nodes : List Node) where
    abbrev seen : List Node
    seen = node ∷ nodes

    -- What stands behind the check runs only if the settings were seen to let it through.
    checked-Knows :
        {A : Type 0} (unset : Bool) (e : LzError) (s : State) (dst_eid : ℕ)
        (r : Result LzError Unit) (t : State) (next : State → Result LzError A × State)
        → Knows service seen s
        → Passed service node nodes (Seen service seen dst_eid) s (r, t)
        → (Knows service seen t → Seen service seen dst_eid → Knows service seen (next t).1)
        → Knows service seen (if unset then (err e, s) else checked service node (r, t) next).1
    checked-Knows true e s dst_eid r t next k p after = k
    checked-Knows false e s dst_eid (err thrown) t next k p after = p.knows
    checked-Knows false e s dst_eid (ok done) t next k p after = after p.knows (p.holds done refl)

    quote_lz_fee-Knows :
        (intent_id blob_id : String) (end_epoch dst_eid : ℕ) (s : State)
        → Knows service seen s
        → Knows service seen (quote_lz_fee service node intent_id blob_id end_epoch dst_eid s).1
    unfolding quote_lz_fee
    quote_lz_fee-Knows intent_id blob_id end_epoch dst_eid s k =
        let (r, t) = assert_send_path_config service node dst_eid s in
        checked-Knows _ _ s dst_eid r t _ k
          (assert_send_path_config-Passed service node nodes dst_eid s k)
          (λ known let_through. known)

    sign-Knows :
        (dst_eid : ℕ) (commands : Result LzError (List Command)) (t : State)
        → ((built : List Command)
            → commands ≡ ok built
            → (message : ProofMessage) × (fee : ℕ) × (message.dst_eid ≡ dst_eid)
              × (built ≡ send_ptb service.app message fee))
        → Knows service seen t
        → Seen service seen dst_eid
        → Knows service seen (sign service node dst_eid commands t).1
    sign-Knows dst_eid (err e) t made k let_through = k
    sign-Knows dst_eid (ok built) t made k let_through = record {
      authority = k.authority;
      paths = k.paths;
      signed =
          All-append (Vetted service seen) t.signed ((dst_eid, built) ∷ []) k.signed
            ((let_through, made built refl), tt);
    }

    dst_eid-proof_message :
        (intent_id blob_id : String) (end_epoch dst_eid : ℕ) (message : ProofMessage)
        → proof_message service node intent_id blob_id end_epoch dst_eid ≡ ok message
        → message.dst_eid ≡ dst_eid
    unfolding proof_message
    dst_eid-proof_message intent_id blob_id end_epoch dst_eid message h =
        let (id, _, h1) = next-ok (service.get_bytes intent_id) _ message h in
        let (blob, _, h2) = next-ok (service.blob_field blob_id) _ message h1 in
        sym (ap (λ (m : ProofMessage). m.dst_eid) (ok-injective _ message h2))

    build-made :
        (intent_id blob_id : String) (end_epoch dst_eid fee_amount : ℕ) (built : List Command)
        → build service node intent_id blob_id end_epoch dst_eid fee_amount ≡ ok built
        → (message : ProofMessage) × (fee : ℕ) × (message.dst_eid ≡ dst_eid)
          × (built ≡ send_ptb service.app message fee)
    build-made intent_id blob_id end_epoch dst_eid fee_amount built h =
        let (message, made, h1) =
          next-ok (proof_message service node intent_id blob_id end_epoch dst_eid) _ built h in
        (
          message,
          fee_amount,
          dst_eid-proof_message intent_id blob_id end_epoch dst_eid message made,
          sym (ok-injective _ built h1),
        )

    lz_send_proof-Knows :
        (intent_id blob_id : String) (end_epoch dst_eid fee_amount : ℕ) (s : State)
        → Knows service seen s
        → Knows service seen
            (lz_send_proof service node intent_id blob_id end_epoch dst_eid fee_amount s).1
    unfolding lz_send_proof
    lz_send_proof-Knows intent_id blob_id end_epoch dst_eid fee_amount s k =
        let (r, t) = assert_send_path_config service node dst_eid s in
        checked-Knows _ _ s dst_eid r t _ k
          (assert_send_path_config-Passed service node nodes dst_eid s k)
          (sign-Knows dst_eid (build service node intent_id blob_id end_epoch dst_eid fee_amount) t
            (build-made intent_id blob_id end_epoch dst_eid fee_amount))

  -- The nodes that answered, the last one first.
  abbrev pub nodes_after : List Call → List Node → List Node
  nodes_after [] nodes = nodes
  nodes_after (quotes _ _ _ _ node ∷ calls) nodes = nodes_after calls (node ∷ nodes)
  nodes_after (sends _ _ _ _ _ node ∷ calls) nodes = nodes_after calls (node ∷ nodes)

  serve_all-Knows :
      (calls : List Call) (nodes : List Node) (s : State)
      → Knows service nodes s
      → Knows service (nodes_after calls nodes) (serve_all service calls s)
  unfolding serve_all serve
  serve_all-Knows [] nodes s k = k
  serve_all-Knows (quotes intent_id blob_id end_epoch dst_eid node ∷ calls) nodes s k =
      serve_all-Knows calls (node ∷ nodes) _ (
        quote_lz_fee-Knows node nodes intent_id blob_id end_epoch dst_eid s
          (Knows-more service node nodes s k))
  serve_all-Knows (sends intent_id blob_id end_epoch dst_eid fee_amount node ∷ calls) nodes s k =
      serve_all-Knows calls (node ∷ nodes) _ (
        lz_send_proof-Knows node nodes intent_id blob_id end_epoch dst_eid fee_amount s
          (Knows-more service node nodes s k))

-- Whatever quotes and sends follow the start and whatever Sui answers: each transaction that is signed
-- is that of a message for its destination, and Sui has answered, then or before, that the
-- configuration object names the relayer's address, and that the effective send configs for the
-- destination name the very executor and, as the only DVN, the very DVN that it is wired to.
pub serve_all-Vetted :
    (service : Service) (calls : List Call)
    → All (Vetted service (nodes_after service calls [])) (serve_all service calls fresh).signed
serve_all-Vetted service calls =
    (serve_all-Knows service calls [] fresh
      (record { authority = λ e. cc; paths = tt; signed = tt })).signed
