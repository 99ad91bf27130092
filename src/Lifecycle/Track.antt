-- ===== src/Lifecycle/Track.antt =====
-- `trackHop` of both watchers of the origin chains (relayer/src/chain/evm/evm-lifecycle.watcher.ts and
-- relayer/src/chain/solana/solana-lifecycle.watcher.ts), over the in-memory feed.
pub mod Knows
use bosphor.Base.{
  ℕ, String, suc, Option, none, some, List, [], ◌∷◌, ◌++◌, ◌≡◌, refl, sym, ap, ◌∙◌, length,
}
use mathlib.Core.List.{append_assoc, append-nil}
use bosphor.Lifecycle.{IntentHop, HopDetails, Records, record_hop}

-- A call of `recordHop`.
pub record HopCall : Type 0 where
  pub intent_id : String
  pub hop : IntentHop
  pub details : HopDetails

-- The feed, and every call that was made, in order.
pub record Feed : Type 0 where
  pub records : Records
  pub tried : List HopCall

-- The time at which the call is served, or none if it fails, which is caught and logged.
unfoldable pub save : Option ℕ → HopCall → Records → Records
save none call m = m
save (some now) call m = record_hop now call.intent_id call.hop call.details m

unfoldable pub track_hop : Option ℕ → HopCall → Feed → Feed
unfolding save
track_hop served call f = record {
  records = save served call f.records;
  tried = f.tried ++ (call ∷ []);
}

-- One call after the other; `serves` gives the outcome of the call that is the n-th to be made.
unfoldable pub track_all : (ℕ → Option ℕ) → List HopCall → Feed → Feed
unfolding track_hop
track_all serves [] f = f
track_all serves (call ∷ calls) f =
    track_all serves calls (track_hop (serves (length f.tried)) call f)

pub tried-track_all :
    (serves : ℕ → Option ℕ) (calls : List HopCall) (f : Feed)
    → (track_all serves calls f).tried ≡ f.tried ++ calls
unfolding track_all
tried-track_all serves [] f = sym (append-nil f.tried)
tried-track_all serves (call ∷ calls) f =
    tried-track_all serves calls (track_hop (serves (length f.tried)) call f)
    ∙ append_assoc f.tried (call ∷ []) calls
