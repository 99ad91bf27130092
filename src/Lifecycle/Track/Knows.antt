-- ===== src/Lifecycle/Track/Knows.antt =====
-- What the feed knows of an intent after the calls of a watcher.
use mathlib.Core.Path.{subst}
use bosphor.Base.{
  ℕ, String, Option, none, some, List, [], ◌∷◌, ◌≡◌, sym, ◌⊎◌, inl, inr, Bool-cases, str_eq, eq_iff,
  length, All, All-append, All-imp, arith,
}
use bosphor.Lifecycle.{
  IntentHop, HopDetails, IntentLifecycleRecord, Records, apply_hop, lookup, record_hop,
  commitment_of, get_commitment,
}
use bosphor.Lifecycle.Laws.{Commits, record_hop-Commits, lookup-record_hop}
use bosphor.Lifecycle.Track.{HopCall, Feed, save, track_hop, track_all}

-- What the origin chain has on record for an intent.
pub record Committed : Type 0 where
  pub blob_id : String
  pub size : ℕ
  pub deadline : ℕ

module _ (committed : String → Committed) where
  abbrev pub Leaves : HopCall → Type 0
  Leaves call =
      (call.details.committed_blob_id ≡ none)
      × (call.details.size ≡ none)
      × (call.details.deadline ≡ none)

  abbrev pub Brings : HopCall → Type 0
  Brings call =
      let c = committed call.intent_id in
      (call.details.committed_blob_id ≡ some c.blob_id)
      × (call.details.size ≡ some c.size)
      × (call.details.deadline ≡ some c.deadline)

  -- The feed has the commitment of an intent, as it is on record.
  abbrev pub Knows : Records → String → Type 0
  Knows m id = let c = committed id in Commits c.blob_id c.size c.deadline (get_commitment id m)

  apply_hop-Brings :
      (o : Option IntentLifecycleRecord) (id : String) (hop : IntentHop) (d : HopDetails) (now : ℕ)
      (c : Committed)
      → d.committed_blob_id ≡ some c.blob_id
      → d.size ≡ some c.size
      → d.deadline ≡ some c.deadline
      → Commits c.blob_id c.size c.deadline (commitment_of (some (apply_hop o id hop d now)))
  unfolding apply_hop
  apply_hop-Brings none id hop d now c a b e = ground arith
  apply_hop-Brings (some r) id hop d now c a b e = ground arith

  pub save-learns :
      (now : ℕ) (call : HopCall) (m : Records)
      → Brings call
      → Knows (save (some now) call m) call.intent_id
  unfolding save get_commitment
  save-learns now call m (a, b, e) =
      let merged : lookup call.intent_id (record_hop now call.intent_id call.hop call.details m)
          ≡ some (apply_hop (lookup call.intent_id m) call.intent_id call.hop call.details now) =
        ground (
          arith,
          lookup-record_hop now call.intent_id call.hop call.details m call.intent_id,
          eq_iff call.intent_id call.intent_id,
        ) in
      let c = committed call.intent_id in
      subst (λ o. Commits c.blob_id c.size c.deadline (commitment_of o)) (sym merged)
        (apply_hop-Brings (lookup call.intent_id m) call.intent_id call.hop call.details now c a b
          e)

  pub save-keeps :
      (now : ℕ) (call : HopCall) (m : Records) (id : String)
      → Leaves call ⊎ Brings call
      → Knows m id
      → Knows (save (some now) call m) id
  unfolding save get_commitment
  save-keeps now call m id (inl bare) h =
      record_hop-Commits
        (record { at = now; id = call.intent_id; hop = call.hop; details = call.details }) id m _ _
        _ (inr bare) h
  save-keeps now call m id (inr told) h = elim (Bool-cases (str_eq call.intent_id id)) [
    | inl same ↦
        subst (λ k. Knows (save (some now) call m) k) ((eq_iff call.intent_id id).0 same)
          (save-learns now call m told)
    | inr other ↦
        record_hop-Commits
          (record { at = now; id = call.intent_id; hop = call.hop; details = call.details }) id m _
          _ _ (inl other) h
  ]

  -- Every commitment that a call brought is known.
  abbrev pub Informed : Feed → Type 0
  Informed f = All (λ call. Brings call → Knows f.records call.intent_id) f.tried

  track_hop-Informed :
      (served : Option ℕ) (call : HopCall) (f : Feed) (now : ℕ)
      → served ≡ some now
      → Leaves call ⊎ Brings call
      → Informed f
      → Informed (track_hop served call f)
  unfolding track_hop
  track_hop-Informed none call f now e faithful h = cc
  track_hop-Informed (some then_) call f now e faithful h =
      All-append _ f.tried (call ∷ [])
        (All-imp f.tried
          (λ other known brings.
            save-keeps then_ call f.records other.intent_id faithful (known brings))
          h)
        ((λ brings. save-learns then_ call f.records brings), tt)

  pub track_all-Informed :
      (serves : ℕ → Option ℕ) (calls : List HopCall) (f : Feed)
      → ((n : ℕ) → (now : ℕ) × (serves n ≡ some now))
      → All (λ call. Leaves call ⊎ Brings call) calls
      → Informed f
      → Informed (track_all serves calls f)
  unfolding track_all
  track_all-Informed serves [] f served faithful h = h
  track_all-Informed serves (call ∷ calls) f served (first, others) h =
      let (now, e) = served (length f.tried) in
      track_all-Informed serves calls (track_hop (serves (length f.tried)) call f) served others
        (track_hop-Informed (serves (length f.tried)) call f now e first h)
