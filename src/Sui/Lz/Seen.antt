-- ===== src/Sui/Lz/Seen.antt =====
-- The checks pass, and note in their caches, only what Sui has answered.
use mathlib.Core.Path.{subst}
use bosphor.Base.{
  ℕ, Bool, true, List, [], ◌∷◌, ◌≡◌, refl, sym, ◌∙◌, ◌⊎◌, inl, inr, Bool-cases, if◌then◌else◌, any,
  ◌==◌, All, All-imp, arith,
}
use bosphor.Base.Result.{Result, ok, err}
use bosphor.Sui.Lz.Ptb.{ProofMessage, Command, send_ptb}
use bosphor.Sui.Lz.Checks.{LzError, Node, Service, check_authority, check_send_path}
use bosphor.Sui.Lz.{
  State, assert_relayer_authority, note_authority, note_send_path, then_send_path,
  assert_send_path_config,
}
use bosphor.Sui.Lz.Settings.{
  Authorises, LetsThrough, check_authority-Authorises, check_send_path-LetsThrough,
}

-- Some member of a list has a property.
abbrev pub Any {ℓ} : {A : Type ℓ} → (A → Type 0) → List A → Type 0
Any P [] = ⊥
Any P (x ∷ xs) = P x ⊎ Any P xs

module _ (service : Service) where
  abbrev pub Seen : List Node → ℕ → Type 0
  Seen nodes eid = Any (Authorises service) nodes × Any (λ node. LetsThrough service node eid) nodes

  -- A transaction that was signed, with its destination: its settings were seen to let it through,
  -- and it is the one of a message for this destination.
  abbrev pub Vetted : List Node → ℕ × List Command → Type 0
  Vetted nodes (eid, commands) =
      Seen nodes eid
      × ((message : ProofMessage) × (fee : ℕ) × (message.dst_eid ≡ eid)
          × (commands ≡ send_ptb service.app message fee))

  -- The caches say what was seen.
  pub record Knows (nodes : List Node) (s : State) : Type 0 where
    pub authority : s.relayer_authority_validated ≡ true → Any (Authorises service) nodes
    pub paths : All (λ eid. Any (λ node. LetsThrough service node eid) nodes) s.validated_dst_eids
    pub signed : All (Vetted nodes) s.signed

  pub Knows-more :
      (node : Node) (nodes : List Node) (s : State) → Knows nodes s → Knows (node ∷ nodes) s
  Knows-more node nodes s k = record {
    authority = λ e. inr (k.authority e);
    paths = All-imp s.validated_dst_eids (λ eid h. inr h) k.paths;
    signed =
        All-imp s.signed (λ (sent : ℕ × List Command) h. ((inr h.0.0, inr h.0.1), h.1)) k.signed;
  }

  found_in_cache :
      (nodes : List Node) (eids : List ℕ) (eid : ℕ)
      → All (λ eid. Any (λ node. LetsThrough service node eid) nodes) eids
      → any (λ e. e == eid) eids ≡ true
      → Any (λ node. LetsThrough service node eid) nodes
  found_in_cache nodes [] eid h e = cc
  found_in_cache nodes (x ∷ xs) eid (h, hs) e = elim (Bool-cases (x == eid)) [
    | inl same ↦
        let here : x ≡ eid = ground arith in
        subst (λ k. Any (λ node. LetsThrough service node k) nodes) here h
    | inr other ↦ found_in_cache nodes xs eid hs (ground arith)
  ]

  module _ (node : Node) (nodes : List Node) where
    abbrev pub seen : List Node
    seen = node ∷ nodes

    -- What a step leaves: the caches still say what was seen, and nothing is signed by it.
    pub record Passed {A : Type 0} (P : Type 0) (before : State)
        (outcome : Result LzError A × State) : Type 0 where
      pub knows : Knows seen outcome.1
      pub unsigned : outcome.1.signed ≡ before.signed
      pub holds : (a : A) → outcome.0 ≡ ok a → P

    note_authority-Passed :
        (r : Result LzError Unit) (s : State)
        → r ≡ check_authority service node
        → Knows seen s
        → Passed (Any (Authorises service) seen) s (note_authority service node r s)
    note_authority-Passed (err e) s same k = record {
      knows = k;
      unsigned = refl;
      holds = λ a h. cc;
    }
    note_authority-Passed (ok done) s same k =
        let here : Any (Authorises service) seen =
          inl (check_authority-Authorises service node (sym same)) in
        record {
          knows = record { authority = λ e. here; paths = k.paths; signed = k.signed };
          unsigned = refl;
          holds = λ a h. here;
        }

    assert_relayer_authority-Passed :
        (s : State)
        → Knows seen s
        → Passed (Any (Authorises service) seen) s (assert_relayer_authority service node s)
    unfolding assert_relayer_authority
    assert_relayer_authority-Passed s k = elim (Bool-cases s.relayer_authority_validated) [
      | inl cached ↦
          subst
            (λ b. Passed (Any (Authorises service) seen) s (
              if b
              then (ok tt, s)
              else note_authority service node (check_authority service node) s))
            (sym cached) (record { knows = k; unsigned = refl; holds = λ a h. k.authority cached })
      | inr first ↦
          subst
            (λ b. Passed (Any (Authorises service) seen) s (
              if b
              then (ok tt, s)
              else note_authority service node (check_authority service node) s))
            (sym first) (note_authority-Passed (check_authority service node) s refl k)
    ]

    note_send_path-Passed :
        (dst_eid : ℕ) (r : Result LzError Unit) (s : State)
        → r ≡ check_send_path service node dst_eid
        → Any (Authorises service) seen
        → Knows seen s
        → Passed (Seen seen dst_eid) s (note_send_path service node dst_eid r s)
    note_send_path-Passed dst_eid (err e) s same auth k = record {
      knows = k;
      unsigned = refl;
      holds = λ a h. cc;
    }
    note_send_path-Passed dst_eid (ok done) s same auth k =
        let here : Any (λ n. LetsThrough service n dst_eid) seen =
          inl (check_send_path-LetsThrough service node dst_eid (sym same)) in
        record {
          knows = record { authority = k.authority; paths = (here, k.paths); signed = k.signed };
          unsigned = refl;
          holds = λ a h. (auth, here);
        }

    then_send_path-Passed :
        (dst_eid : ℕ) (before : State) (r : Result LzError Unit) (s : State)
        → Passed (Any (Authorises service) seen) before (r, s)
        → Passed (Seen seen dst_eid) before (then_send_path service node dst_eid (r, s))
    then_send_path-Passed dst_eid before (err e) s p = record {
      knows = p.knows;
      unsigned = p.unsigned;
      holds = λ a h. cc;
    }
    then_send_path-Passed dst_eid before (ok done) s p =
        let auth = p.holds done refl in
        let next = λ (b : Bool).
          if b
          then (ok tt, s)
          else note_send_path service node dst_eid (check_send_path service node dst_eid) s in
        elim (Bool-cases (any (λ eid. eid == dst_eid) s.validated_dst_eids)) [
          | inl cached ↦
              subst (λ b. Passed (Seen seen dst_eid) before (next b)) (sym cached)
                (record {
                  knows = p.knows;
                  unsigned = p.unsigned;
                  holds = λ a h.
                      (auth, found_in_cache seen s.validated_dst_eids dst_eid p.knows.paths cached);
                })
          | inr first ↦
              let q =
                note_send_path-Passed dst_eid (check_send_path service node dst_eid) s refl auth
                  p.knows in
              subst (λ b. Passed (Seen seen dst_eid) before (next b)) (sym first)
                (record { knows = q.knows; unsigned = q.unsigned ∙ p.unsigned; holds = q.holds })
        ]

    pub assert_send_path_config-Passed :
        (dst_eid : ℕ) (s : State)
        → Knows seen s
        → Passed (Seen seen dst_eid) s (assert_send_path_config service node dst_eid s)
    unfolding assert_send_path_config
    assert_send_path_config-Passed dst_eid s k =
        let (r, t) = assert_relayer_authority service node s in
        then_send_path-Passed dst_eid s r t (assert_relayer_authority-Passed s k)
