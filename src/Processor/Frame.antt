-- ===== src/Processor/Frame.antt =====
-- The return leg (relayer/src/intent/intent.processor.ts) does not touch the queue, whether it
-- succeeds or throws.
use bosphor.Base.{ℕ, String, Bool, List, ◌∷◌, ◌≡◌, refl, true, false}
use bosphor.Staged.Types.{StagedIntentRow, UploadResult}
use bosphor.Staged.Table.{Table}
use bosphor.Processor.World.{M, Env, Config, Event}
use bosphor.Processor.Triple.{
  Triple, On, Triple-bind, Triple-catch, Triple-throw, Triple-call, Triple-if, Triple-emit,
  Triple-track_hop,
}
use bosphor.Processor.Return.{
  send_proof, confirm_evm, confirm_solana, return_to_evm, return_to_solana, return_leg, is_eid,
}

-- The events of a return leg.
abbrev pub is_return : {U : Type 0} → Event U → Bool
is_return (Event.proof_sent _ _ _) = true
is_return (Event.confirmed_by_owner _) = true
is_return _ = false

-- `p` holds of the queue and the trace after `m` if it held before, however `m` ends.
abbrev pub KeepsQueue : {U A : Type 0} → (Table → List (Event U) → Type 0) → M U A → Type 0
KeepsQueue p m = Triple (On p) m (λ _. On p) (λ _. On p)

module _ {U : Type 0} (p : Table → List (Event U) → Type 0)
    (quiet : (e : Event U)
      → is_return e ≡ true
      → (t : Table) (trace : List (Event U)) → p t trace
      → p t (e ∷ trace))
    (config : Config) (env : Env U) where
  module _ (id : String) (up : UploadResult) where
    KeepsQueue-send_proof : (eid : ℕ) → KeepsQueue p (send_proof config env id up eid)
    unfolding send_proof
    KeepsQueue-send_proof eid =
        Triple-bind _ _ (Triple-call _ (λ _ _ _ k. k) (λ _ _ k. k)) λ quoted.
          Triple-bind _ _ (Triple-call _ (λ _ _ _ k. k) (λ _ _ k. k)) λ digest.
            Triple-bind _ _ (Triple-emit _ (quiet _ refl)) λ _. Triple-track_hop env id _ _

    KeepsQueue-confirm_evm : KeepsQueue p (confirm_evm config env id up)
    unfolding confirm_evm
    KeepsQueue-confirm_evm = Triple-bind _ _ (Triple-call _ (λ _ _ _ k. k) (λ _ _ k. k)) λ field.
        Triple-bind _ _ (Triple-call _ (λ _ _ _ k. k) (λ _ _ k. k))
          λ digest. Triple-bind _ _ (Triple-emit _ (quiet _ refl)) λ _. Triple-track_hop env id _ _

    KeepsQueue-confirm_solana : KeepsQueue p (confirm_solana config env id up)
    unfolding confirm_solana
    KeepsQueue-confirm_solana =
        Triple-if env.solana_can_confirm _ _
          (λ _. Triple-bind _ _ (Triple-call _ (λ _ _ _ k. k) (λ _ _ k. k)) λ field.
            Triple-bind _ _ (Triple-call _ (λ _ _ _ k. k) (λ _ _ k. k)) λ digest.
              Triple-bind _ _ (Triple-emit _ (quiet _ refl))
                λ _. Triple-bind _ _ (Triple-track_hop env id _ _) λ _. Triple-track_hop env id _ _)
          (λ _. Triple-throw _ (λ _ k. k))

  pub KeepsQueue-return_leg :
      (row : StagedIntentRow) (up : UploadResult) → KeepsQueue p (return_leg config env row up)
  unfolding return_leg return_to_evm return_to_solana
  KeepsQueue-return_leg row up =
      Triple-if (is_eid row.src_eid config.solana_src_eid)
        (return_to_solana config env row.intent_id up) (return_to_evm config env row.intent_id up)
        (λ _.
          Triple-catch _ _ (KeepsQueue-send_proof row.intent_id up _)
            (λ _. KeepsQueue-confirm_solana row.intent_id up))
        (λ _.
          Triple-catch _ _ (KeepsQueue-send_proof row.intent_id up _)
            (λ _. KeepsQueue-confirm_evm row.intent_id up))
