-- ===== src/Walrus/WalCost/Laws.antt =====
-- The encoded blob holds the blob, and the bill holds the encoded blob
-- (relayer/src/walrus/wal-cost.calculator.ts).
use native.Mathlib.Nat.{
  mul-le-mul, div-mul-le_self, le-div_iff_mul-le, lt-mul-div-succ, mul_right_comm,
}
use bosphor.Base.{ℕ, some, ◌+◌, ◌-◌, ◌*◌, ◌/◌, ◌≤◌, ◌<◌, ◌≡◌, refl, arith, max}
use bosphor.Base.Result.{ok}
use bosphor.Walrus.StoreEpochs.{natural}
use bosphor.Walrus.WalCost.{
  WalrusEncodingType, rs2, red_stuff, get_max_faulty_nodes, decoding_safety_limit,
  get_source_symbols, round_symbol, encoded_sliver_size, encoded_blob_length,
  storage_units_from_size, bytes_per_unit_size, breakdown, WalCostBreakdown, WalrusSystemState,
  compute_wal_cost,
}

-- With a shard, both counts of symbols are positive, and neither passes the number of shards.
source_symbols-bounds :
    (n : ℕ) (t : WalrusEncodingType)
    → 1 ≤ n
    → (1 ≤ (get_source_symbols n t).0)
      × (1 ≤ (get_source_symbols n t).1)
      × ((get_source_symbols n t).1 ≤ n)
unfolding get_source_symbols decoding_safety_limit get_max_faulty_nodes
source_symbols-bounds n rs2 h = (ground arith, ground arith, ground arith)
source_symbols-bounds n red_stuff h = (ground arith, ground arith, ground arith)

div-le-div : (x y d : ℕ) → 1 ≤ d → x ≤ y → x / d ≤ y / d
div-le-div x y d h k = (le-div_iff_mul-le h).1 (omega (arith, div-mul-le_self x d, k))

round_symbol-le : (t : WalrusEncodingType) (n : ℕ) → n ≤ round_symbol t n
unfolding round_symbol
round_symbol-le rs2 n = ground arith
round_symbol-le red_stuff n = omega arith

round_symbol_mono : (t : WalrusEncodingType) (m n : ℕ) → m ≤ n → round_symbol t m ≤ round_symbol t n
unfolding round_symbol
round_symbol_mono rs2 m n h = ground arith
round_symbol_mono red_stuff m n h = h

-- The encoded blob is at least as long as the blob.
encoded_blob_length-covers :
    (size n : ℕ) (t : WalrusEncodingType) → 1 ≤ n → size ≤ encoded_blob_length size n t
unfolding encoded_blob_length encoded_sliver_size
encoded_blob_length-covers size n t h =
    let (p, q, below) = source_symbols-bounds n t h in
    let primary = (get_source_symbols n t).0 in
    let secondary = (get_source_symbols n t).1 in
    let symbol = (max size 1 - 1) / (primary * secondary) + 1 in
    let enough : size ≤ primary * secondary * symbol =
      omega (arith, lt-mul-div-succ (max size 1 - 1) {b = primary * secondary} (mul-le-mul p q)) in
    let rounded : primary * secondary * symbol ≤ primary * secondary * round_symbol t symbol =
      mul-le-mul {n₁ = primary * secondary} {n₂ = primary * secondary} (omega arith)
        (round_symbol-le t symbol) in
    let spread : primary * round_symbol t symbol * secondary
        ≤ (primary + secondary) * round_symbol t symbol * n =
      mul-le-mul
        (mul-le-mul {n₁ = primary} {m₁ = round_symbol t symbol} {n₂ = primary + secondary}
          {m₂ = round_symbol t symbol} (omega arith) (omega arith))
        below in
    omega (arith, enough, rounded, spread, mul_right_comm primary secondary (round_symbol t symbol))

encoded_blob_length_mono :
    (a b n : ℕ) (t : WalrusEncodingType)
    → 1 ≤ n
    → a ≤ b
    → encoded_blob_length a n t ≤ encoded_blob_length b n t
unfolding encoded_blob_length encoded_sliver_size
encoded_blob_length_mono a b n t h k =
    let (p, q, _) = source_symbols-bounds n t h in
    let primary = (get_source_symbols n t).0 in
    let secondary = (get_source_symbols n t).1 in
    let symbols : (max a 1 - 1) / (primary * secondary) + 1
        ≤ (max b 1 - 1) / (primary * secondary) + 1 =
      omega (
        arith,
        div-le-div (max a 1 - 1) (max b 1 - 1) (primary * secondary) (mul-le-mul p q) (omega arith),
      ) in
    let slivers =
      mul-le-mul {n₁ = primary + secondary} {n₂ = primary + secondary} (omega arith)
        (round_symbol_mono t _ _ symbols) in
    omega (arith, mul-le-mul {m₁ = n} {m₂ = n} slivers (omega arith))

-- The blob fits into its encoding, the billed units hold the encoding, and one unit less would not.
abbrev pub Covers : WalCostBreakdown → Type 0
Covers b =
    (b.unencoded_size ≤ b.encoded_size)
    × (b.encoded_size ≤ b.storage_units * bytes_per_unit_size)
    × (b.storage_units * bytes_per_unit_size < b.encoded_size + bytes_per_unit_size)

breakdown-Covers :
    (size e n storage write : ℕ) (t : WalrusEncodingType)
    → 1 ≤ n
    → Covers (breakdown size e n storage write t)
unfolding breakdown storage_units_from_size
breakdown-Covers size e n storage write t h =
    (encoded_blob_length-covers size n t h, omega arith, omega arith)

module _ (e n storage write : ℕ) (t : WalrusEncodingType) where
  abbrev pub state_of : WalrusSystemState
  state_of = record {
    n_shards = natural n;
    storage_price_per_unit_size = natural storage;
    write_price_per_unit_size = natural write;
    encoding_type = some t;
  }

  pub computed :
      (size : ℕ)
      → 1 ≤ e
      → 1 ≤ n
      → compute_wal_cost (natural size) (natural e) state_of
        ≡ ok (breakdown size e n storage write t)
  unfolding compute_wal_cost
  computed size h k = ground arith

  breakdown_mono :
      (x y : ℕ)
      → 1 ≤ n
      → x ≤ y
      → (breakdown x e n storage write t).total_cost_frost
        ≤ (breakdown y e n storage write t).total_cost_frost
  unfolding breakdown storage_units_from_size
  breakdown_mono x y k h =
      let grown = encoded_blob_length_mono x y n t k h in
      let units =
        div-le-div (encoded_blob_length x n t + (bytes_per_unit_size - 1))
          (encoded_blob_length y n t + (bytes_per_unit_size - 1)) bytes_per_unit_size (omega arith)
          (omega (arith, grown)) in
      let stored =
        mul-le-mul {m₁ = e} {m₂ = e} (mul-le-mul {m₁ = storage} {m₂ = storage} units (omega arith))
          (omega arith) in
      let written = mul-le-mul {m₁ = write} {m₂ = write} units (omega arith) in
      omega (arith, stored, written)

  -- With at least one epoch and one shard the cost is computed, for every size, price and encoding:
  -- the blob fits into its encoding, and the billed units are as many as hold it and no more.
  pub compute_wal_cost-Covers :
      (size : ℕ)
      → 1 ≤ e
      → 1 ≤ n
      → (b : WalCostBreakdown) × (compute_wal_cost (natural size) (natural e) state_of ≡ ok b)
        × (b.unencoded_size ≡ size)
        × Covers b
  unfolding breakdown
  compute_wal_cost-Covers size h k = (
    breakdown size e n storage write t,
    computed size h k,
    refl,
    breakdown-Covers size e n storage write t k,
  )

  -- A larger blob never costs less, at the same duration, shards and prices.
  pub compute_wal_cost_mono :
      (x y : ℕ) (a b : WalCostBreakdown)
      → 1 ≤ e
      → 1 ≤ n
      → x ≤ y
      → compute_wal_cost (natural x) (natural e) state_of ≡ ok a
      → compute_wal_cost (natural y) (natural e) state_of ≡ ok b
      → a.total_cost_frost ≤ b.total_cost_frost
  compute_wal_cost_mono x y a b h k le p q =
      ground (arith, computed x h k, computed y h k, breakdown_mono x y k le)
