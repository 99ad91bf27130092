-- ===== src/Lifecycle/Laws.antt =====
-- What a sequence of hops leaves in the feed (relayer/src/lifecycle/intent-lifecycle.merge.ts).
use mathlib.Core.Path.{subst}
use mathlib.Core.Option.{some-injective}
use bosphor.Base.{
  max, All, ◌⊎◌, sym, Bool-cases, inl, inr, ℕ, String, ◌≤◌, ◌≡◌, refl, Option, none, some, List, [],
  ◌∷◌, true, false, arith, count_if, if◌then◌else◌, eq_iff, str_eq,
}
use bosphor.Lifecycle.{
  IntentHop, IntentHopRecord, HopDetails, IntentLifecycleRecord, IntentCommitment, Records,
  same_hop, put_hop, apply_hop, record_hop, lookup, insert, commitment_of, get_commitment,
}

abbrev pub times : IntentHop → List IntentHopRecord → ℕ
times hop hs = count_if (λ h. same_hop h.hop hop) hs

times-put_hop :
    (hop k : IntentHop) (at : ℕ) (tx : Option String) (hs : List IntentHopRecord)
    → times k (put_hop hop at tx hs) ≡ (if same_hop hop k then max 1 (times k hs) else times k hs)
unfolding put_hop
times-put_hop hop k at tx [] = ground arith
times-put_hop hop k at tx (h ∷ hs) = ground (arith, times-put_hop hop k at tx hs)

-- No hop has two entries.
abbrev pub HopsOnce : IntentLifecycleRecord → Type 0
HopsOnce r = (k : IntentHop) → times k r.hops ≤ 1

abbrev OnceIf : Option IntentLifecycleRecord → Type 0
OnceIf none = Unit
OnceIf (some r) = HopsOnce r

apply_hop-HopsOnce :
    (o : Option IntentLifecycleRecord) (id : String) (hop : IntentHop) (d : HopDetails) (now : ℕ)
    → OnceIf o
    → HopsOnce (apply_hop o id hop d now)
unfolding apply_hop
apply_hop-HopsOnce none id hop d now h k = rw (times-put_hop hop k _ _ []) (ground arith)
apply_hop-HopsOnce (some r) id hop d now h k =
    rw (times-put_hop hop k _ _ r.hops) (ground (arith, h k))

-- Another id's record is left alone; the id's own is the merge.
pub lookup-insert :
    (id key : String) (r : IntentLifecycleRecord) (m : Records)
    → lookup key (insert id r m) ≡ (if str_eq id key then some r else lookup key m)
unfolding lookup insert
lookup-insert id key r [] = refl
lookup-insert id key r ((k, q) ∷ m) =
    ground (arith, eq_iff k id, eq_iff k key, eq_iff id key, lookup-insert id key r m)

-- One report of a hop to the store.
pub record Report : Type 0 where
  pub at : ℕ
  pub id : String
  pub hop : IntentHop
  pub details : HopDetails

abbrev pub report : List Report → Records → Records
report [] m = m
report (e ∷ es) m = report es (record_hop e.at e.id e.hop e.details m)

abbrev pub AllOnce : Records → Type 0
AllOnce m = (id : String) (r : IntentLifecycleRecord) → lookup id m ≡ some r → HopsOnce r

-- After a hop is recorded, its id leads to the merged record and every other id to what it led to.
pub lookup-record_hop :
    (now : ℕ) (id : String) (hop : IntentHop) (d : HopDetails) (m : Records) (key : String)
    → lookup key (record_hop now id hop d m)
      ≡ (if str_eq id key then some (apply_hop (lookup id m) id hop d now) else lookup key m)
unfolding record_hop
lookup-record_hop now id hop d m key = lookup-insert id key (apply_hop (lookup id m) id hop d now) m

AllOnce-OnceIf :
    (id : String) (m : Records) (o : Option IntentLifecycleRecord)
    → AllOnce m
    → lookup id m ≡ o
    → OnceIf o
AllOnce-OnceIf id m none h e = tt
AllOnce-OnceIf id m (some r) h e = h id r e

record_hop-AllOnce :
    (now : ℕ) (id : String) (hop : IntentHop) (d : HopDetails) (m : Records)
    → AllOnce m
    → AllOnce (record_hop now id hop d m)
record_hop-AllOnce now id hop d m h key r e = elim (Bool-cases (str_eq id key)) [
  | inl same ↦
      let merged : some (apply_hop (lookup id m) id hop d now) ≡ some r =
        ground (arith, lookup-record_hop now id hop d m key) in
      subst HopsOnce (some-injective _ _ merged)
        (apply_hop-HopsOnce (lookup id m) id hop d now (AllOnce-OnceIf id m _ h refl))
  | inr other ↦ h key r (ground (arith, lookup-record_hop now id hop d m key))
]

-- Whatever hops are reported, in any order and however often, for any intents, no intent's record
-- has two entries for one hop.
pub report-AllOnce : (es : List Report) (m : Records) → AllOnce m → AllOnce (report es m)
report-AllOnce [] m h = h
report-AllOnce (e ∷ es) m h = report-AllOnce es _ (record_hop-AllOnce e.at e.id e.hop e.details m h)

-- A report that brings no commitment field for `id`, or is about another id.
abbrev pub LeavesCommitment : String → Report → Type 0
LeavesCommitment id e =
    (str_eq e.id id ≡ false)
    ⊎ (e.details.committed_blob_id ≡ none) × (e.details.size ≡ none) × (e.details.deadline ≡ none)

-- The three committed fields.
abbrev pub Commits : String → ℕ → ℕ → Option IntentCommitment → Type 0
Commits blob_id size deadline none = ⊥
Commits blob_id size deadline (some c) =
    (c.committed_blob_id ≡ blob_id) × (c.size ≡ size) × (c.deadline ≡ deadline)

apply_hop-Commits :
    (o : Option IntentLifecycleRecord) (id : String) (hop : IntentHop) (d : HopDetails) (now : ℕ)
    (blob_id : String) (size deadline : ℕ)
    → d.committed_blob_id ≡ none
    → d.size ≡ none
    → d.deadline ≡ none
    → Commits blob_id size deadline (commitment_of o)
    → Commits blob_id size deadline (commitment_of (some (apply_hop o id hop d now)))
unfolding apply_hop
apply_hop-Commits none id hop d now blob_id size deadline a b c h = absurd h
apply_hop-Commits (some r) id hop d now blob_id size deadline a b c h = ground arith

pub record_hop-Commits :
    (e : Report) (id : String) (m : Records) (blob_id : String) (size deadline : ℕ)
    → LeavesCommitment id e
    → Commits blob_id size deadline (commitment_of (lookup id m))
    → Commits blob_id size deadline
        (commitment_of (lookup id (record_hop e.at e.id e.hop e.details m)))
record_hop-Commits e id m blob_id size deadline l h = elim (Bool-cases (str_eq e.id id)) [
  | inl same ↦
      let merged : lookup id (record_hop e.at e.id e.hop e.details m)
          ≡ some (apply_hop (lookup e.id m) e.id e.hop e.details e.at) =
        ground (arith, lookup-record_hop e.at e.id e.hop e.details m id) in
      let (a, b, c) = bare same l in
      subst (λ o. Commits blob_id size deadline (commitment_of o)) (sym merged)
        (apply_hop-Commits (lookup e.id m) e.id e.hop e.details e.at blob_id size deadline a b c (
          subst (λ k. Commits blob_id size deadline (commitment_of (lookup k m)))
            (sym ((eq_iff e.id id).0 same)) h))
  | inr other ↦
      let kept : lookup id (record_hop e.at e.id e.hop e.details m) ≡ lookup id m =
        ground (arith, lookup-record_hop e.at e.id e.hop e.details m id) in
      subst (λ o. Commits blob_id size deadline (commitment_of o)) (sym kept) h
]
  where
    bare :
        str_eq e.id id ≡ true
        → LeavesCommitment id e
        → (e.details.committed_blob_id ≡ none)
          × (e.details.size ≡ none)
          × (e.details.deadline ≡ none)
    bare same (inl other) = cc
    bare same (inr h) = h

-- Once an intent's commitment is known, reports that bring no commitment field for it (every hop
-- but the first is one) leave its blob id, size and deadline as they were committed.
pub report-Commits :
    (es : List Report) (id : String) (m : Records) (blob_id : String) (size deadline : ℕ)
    → All (LeavesCommitment id) es
    → Commits blob_id size deadline (get_commitment id m)
    → Commits blob_id size deadline (get_commitment id (report es m))
unfolding get_commitment
report-Commits [] id m blob_id size deadline l h = h
report-Commits (e ∷ es) id m blob_id size deadline (l, ls) h =
    report-Commits es id _ blob_id size deadline ls
      (record_hop-Commits e id m blob_id size deadline l h)
