-- ===== src/Evm/Watcher/Calls.antt =====
-- The logs of a range of blocks, and the calls that are made for them.
use mathlib.Core.List.{append_assoc, map-append}
use bosphor.Base.{
  ℕ, String, zero, suc, ◌+◌, ◌-◌, ◌≤◌, some, List, [], ◌∷◌, ◌++◌, map, ◌≡◌, refl, sym, ap, ◌∙◌,
  select, arith,
}
use bosphor.Lifecycle.{IntentHop, same_hop, rank}
use bosphor.Lifecycle.Track.{HopCall}
use bosphor.Evm.Poll.{SubmittedArgs, Log, SubmittedEvent, ExecutedEvent, Rpc, read_logs}
use bosphor.Evm.Watcher.{submitted_call, confirmed_call}

-- The logs of so many blocks from one on.
abbrev pub span {ℓ} : {A : Type ℓ} → (ℕ → List A) → ℕ → ℕ → List A
span logs_at block zero = []
span logs_at block (suc n) = logs_at block ++ span logs_at (suc block) n

span-add {ℓ} :
    {A : Type ℓ} (logs_at : ℕ → List A) (block m n : ℕ)
    → span logs_at block (m + n) ≡ span logs_at block m ++ span logs_at (block + m) n
span-add logs_at block zero n =
    let none_left : 0 + n ≡ n = omega arith in
    let here : block ≡ block + 0 = omega arith in
    ap (λ k. span logs_at block k) none_left ∙ ap (λ k. span logs_at k n) here
span-add logs_at block (suc m) n =
    let one_more : suc m + n ≡ suc (m + n) = omega arith in
    let there : suc block + m ≡ block + suc m = omega arith in
    ap (λ k. span logs_at block k) one_more
    ∙ ap (◌++◌ (logs_at block)) (
        span-add logs_at (suc block) m n
        ∙ ap (λ k. span logs_at (suc block) m ++ span logs_at k n) there)
    ∙ sym
        (append_assoc (logs_at block) (span logs_at (suc block) m) (span logs_at (block + suc m) n))

-- What the chain has in each block.
pub record Chain : Type 0 where
  pub submitted_at : ℕ → List (Log SubmittedArgs)
  pub executed_at : ℕ → List (Log String)

-- A query that is answered gives the logs of its blocks, the last one included.
pub record IsOf (chain : Chain) (rpc : Rpc) : Type 0 where
  pub submitted :
      (from_block to_block : ℕ) (logs : List (Log SubmittedArgs))
      → rpc.submitted_logs from_block to_block ≡ some logs
      → logs ≡ span chain.submitted_at from_block (suc to_block - from_block)
  pub executed :
      (from_block to_block : ℕ) (logs : List (Log String))
      → rpc.executed_logs from_block to_block ≡ some logs
      → logs ≡ span chain.executed_at from_block (suc to_block - from_block)

-- The calls for a hop, in order.
abbrev pub calls_for : IntentHop → List HopCall → List HopCall
calls_for hop calls = select (λ call. same_hop call.hop hop) calls

pub calls_for-append :
    (hop : IntentHop) (xs ys : List HopCall)
    → calls_for hop (xs ++ ys) ≡ calls_for hop xs ++ calls_for hop ys
calls_for-append hop [] ys = refl
calls_for-append hop (x ∷ xs) ys = ground (arith, calls_for-append hop xs ys)

pub submitted-calls_for :
    (events : List SubmittedEvent)
    → (calls_for IntentHop.submitted (map submitted_call events) ≡ map submitted_call events)
      × (calls_for IntentHop.confirmed (map submitted_call events) ≡ [])
unfolding rank
submitted-calls_for [] = (refl, refl)
submitted-calls_for (e ∷ es) =
    let (mine, other) = submitted-calls_for es in (ap (◌∷◌ (submitted_call e)) mine, other)

pub confirmed-calls_for :
    (events : List ExecutedEvent)
    → (calls_for IntentHop.confirmed (map confirmed_call events) ≡ map confirmed_call events)
      × (calls_for IntentHop.submitted (map confirmed_call events) ≡ [])
unfolding rank
confirmed-calls_for [] = (refl, refl)
confirmed-calls_for (e ∷ es) =
    let (mine, other) = confirmed-calls_for es in (ap (◌∷◌ (confirmed_call e)) mine, other)

pub read_logs-append :
    {Args Event : Type 0} (event : Args → String → Event) (xs ys : List (Log Args))
    → read_logs event (xs ++ ys) ≡ read_logs event xs ++ read_logs event ys
unfolding read_logs
read_logs-append event [] ys = refl
read_logs-append event (x ∷ xs) ys =
    ap (◌++◌ _) (read_logs-append event xs ys) ∙ sym (append_assoc _ (read_logs event xs) _)

-- The calls for the logs up to one block, and from there to another.
pub calls_on :
    {A B : Type 0} (read : List A → List B) (call : B → HopCall) (logs_at : ℕ → List A)
    (start c d : ℕ)
    → ((xs ys : List A) → read (xs ++ ys) ≡ read xs ++ read ys)
    → start ≤ c
    → c ≤ d
    → map call (read (span logs_at start (d - start)))
      ≡ map call (read (span logs_at start (c - start))) ++ map call (read (span logs_at c (d - c)))
calls_on read call logs_at start c d splits p q =
    let both : d - start ≡ (c - start) + (d - c) = omega arith in
    let there : start + (c - start) ≡ c = omega arith in
    ap (λ k. map call (read (span logs_at start k))) both
    ∙ ap (λ xs. map call (read xs)) (span-add logs_at start (c - start) (d - c))
    ∙ ap (λ k. map call (read (span logs_at start (c - start) ++ span logs_at k (d - c)))) there
    ∙ ap (map call) (splits (span logs_at start (c - start)) (span logs_at c (d - c)))
    ∙ map-append call (read (span logs_at start (c - start))) (read (span logs_at c (d - c)))
