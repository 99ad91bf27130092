-- ===== src/Walrus/StoreEpochs.antt =====
-- Storage durations: relayer/src/walrus/store-epochs.ts, and `resolveStoreEpochs` of
-- relayer/src/walrus/walrus.service.ts, which reads Walrus's own limit.
use bosphor.Base.{◌<◌, ℕ, String, Option, none, some, ◌≢◌, arith, if◌then◌else◌, ltb, min, max}
use bosphor.Base.Result.{Result, ok, err, ◌>>=◌}

abbrev pub walrus_min_epochs : ℕ
walrus_min_epochs = 1

-- A JavaScript number, as the policy tells them apart: `Number.isInteger(n) && n >= 0`, or not.
pub data Number : Type 0 where
  natural : ℕ → Number
  malformed : Number

pub record StoreEpochsPolicy : Type 0 where
  pub default_epochs : ℕ
  pub max_epochs : ℕ

pub data Source : Type 0 where
  committed legacy_default : Source

-- The reasons carry the numbers that the source puts into its message.
pub data Reason : Type 0 where
  default_exceeds : ℕ → ℕ → Reason
  invalid : Reason
  commitment_exceeds : ℕ → ℕ → Reason

pub data StoreEpochsResolution : Type 0 where
  resolved : ℕ → Source → StoreEpochsResolution
  rejected : Reason → StoreEpochsResolution

unfoldable pub resolve_store_epochs : Option Number → StoreEpochsPolicy → StoreEpochsResolution
resolve_store_epochs none policy =
    if ltb policy.max_epochs policy.default_epochs
    then rejected (default_exceeds policy.default_epochs policy.max_epochs)
    else resolved policy.default_epochs legacy_default
resolve_store_epochs (some malformed) policy = rejected invalid
resolve_store_epochs (some (natural n)) policy =
    if ltb policy.max_epochs n
    then rejected (commitment_exceeds n policy.max_epochs)
    else resolved (max n walrus_min_epochs) committed

-- `maxEpochsAhead`: the length read from Walrus's system state, which may fail to be read.
unfoldable pub max_epochs_ahead : Result String Number → Result String ℕ
max_epochs_ahead (err e) = err e
max_epochs_ahead (ok malformed) = err "Walrus system state has no valid max_epochs_ahead"
max_epochs_ahead (ok (natural n)) =
    if ltb n 1 then err "Walrus system state has no valid max_epochs_ahead" else ok n

-- WalrusService.resolveStoreEpochs: the relayer's cap first, so that a commitment over it is
-- rejected without reading Walrus.
unfoldable pub resolve :
    StoreEpochsPolicy → Result String Number → Option Number → Result String StoreEpochsResolution
unfolding resolve_store_epochs max_epochs_ahead
resolve config system n = elim (resolve_store_epochs n config) [
  | rejected reason ↦ ok (rejected reason)
  | resolved _ _ ↦ do
    walrus_max ← max_epochs_ahead system
    ok (resolve_store_epochs n (record config { max_epochs = min config.max_epochs walrus_max }))
]

-- A commitment above the relayer's cap is never resolved, to any duration, whatever Walrus answers,
-- also if its limit cannot be read.
pub resolve_over_cap :
    (config : StoreEpochsPolicy) (system : Result String Number) (c e : ℕ) (s : Source)
    → config.max_epochs < c
    → resolve config system (some (natural c)) ≢ ok (resolved e s)
unfolding resolve
resolve_over_cap config system c e s h p = ground arith
