-- ===== src/Evm/Resends.antt =====
-- What a run of attempts sends, and how it ends.
use bosphor.Base.{
  ℕ, String, true, false, suc, zero, ◌+◌, ◌*◌, ◌<◌, ◌≤◌, ◌≡◌, refl, List, [], ◌∷◌, length,
  if◌then◌else◌, ltb, ◌==◌, Bool-cases, ◌⊎◌, inl, inr, ap, sym, ◌∙◌, arith,
}
use mathlib.Core.Path.{subst}
use bosphor.Base.Result.{Result, ok, err}
use bosphor.Evm.NonceConflict.{
  ErrorValue, FeeOverrides, FeeData, is_nonce_conflict_error, bump_fee, bump_fee_overrides,
  initial_fee_overrides,
}
use bosphor.Evm.Confirm.{
  Network, Built, Thrown, Sends, rebuild, send_rebuilt, after_send, send_loop, start_sends,
  send_confirm_execution,
}

-- A fee that replaces another: at least 12 percent more, and by less than one unit more than that.
abbrev pub Replaces : ℕ → ℕ → Type 0
Replaces new old = (old * 112 ≤ new * 100) × (new * 100 < old * 112 + 100)

bump_fee-Replaces : (fee : ℕ) → Replaces (bump_fee fee) fee
unfolding bump_fee
bump_fee-Replaces fee = (omega arith, omega arith)

module _ (network : Network) where
  -- A transaction that follows the n-th attempt's: after a conflict it has the pending nonce and fees that
  -- replace the old ones, and otherwise it is the same.
  abbrev pub Follows : ℕ → Built → Built → Result ErrorValue String → Type 0
  Follows n old new (ok hash) = ⊥
  Follows n old new (err e) =
      if is_nonce_conflict_error network.matches e 0
      then (network.pending n ≡ ok new.nonce)
        × Replaces new.fees.max_fee_per_gas old.fees.max_fee_per_gas
        × Replaces new.fees.max_priority_fee_per_gas old.fees.max_priority_fee_per_gas
      else (new ≡ old)

  -- Each transaction, the first of which is the n-th attempt's, follows the one before.
  abbrev pub AllFollow : ℕ → List Built → Type 0
  AllFollow n [] = Unit
  AllFollow n (old ∷ []) = Unit
  AllFollow n (old ∷ new ∷ rest) =
      Follows n old new (network.confirm n) × AllFollow (suc n) (new ∷ rest)

  -- A result after `count` transactions, the first of which is the n-th attempt's: a hash is that of the
  -- last one, and what is thrown is an answer of the network.
  abbrev pub EndsWith : ℕ → ℕ → Result Thrown String → Type 0
  EndsWith n count (ok hash) = network.confirm (n + count) ≡ ok hash
  EndsWith n count (err (Thrown.failed e)) =
      (network.confirm (n + count) ≡ err e)
      ⊎ ((network.pending (n + count) ≡ err e) ⊎ (network.fee_data ≡ err e))
  EndsWith n count (err Thrown.unreachable) = ⊥

  EndsWith-same :
      (n count m rest : ℕ) (r : Result Thrown String)
      → m + rest ≡ n + count
      → EndsWith m rest r
      → EndsWith n count r
  EndsWith-same n count m rest (ok hash) e h = ap network.confirm (sym e) ∙ h
  EndsWith-same n count m rest (err (Thrown.failed x)) e h =
      subst
        (λ i.
          (network.confirm i ≡ err x) ⊎ ((network.pending i ≡ err x) ⊎ (network.fee_data ≡ err x)))
        e h
  EndsWith-same n count m rest (err Thrown.unreachable) e h = h

  -- What comes behind the n-th attempt's transaction.
  record Continues (n left : ℕ) (tx : Built) (o : Sends) : Type 0 where
    few : length o.1 ≤ left
    follow : AllFollow n (tx ∷ o.1)
    ends : EndsWith n (length o.1) o.0

  Continues-last :
      (n left : ℕ) (tx : Built) (r : Result Thrown String)
      → EndsWith n 0 r
      → Continues n left tx (r, [])
  Continues-last n left tx r h = record { few = omega arith; follow = tt; ends = h }

  Continues-next :
      (n left : ℕ) (tx new : Built) (o : Sends)
      → Follows n tx new (network.confirm n)
      → Continues (suc n) left new o
      → Continues n (suc left) tx (o.0, new ∷ o.1)
  Continues-next n left tx new o f h = record {
    few = omega (arith, h.few);
    follow = (f, h.follow);
    ends =
        let same : suc n + length o.1 ≡ n + suc (length o.1) = omega arith in
        EndsWith-same n (suc (length o.1)) (suc n) (length o.1) o.0 same h.ends;
  }

  rebuild-bumps : (nonce : ℕ) (tx : Built) → (rebuild nonce tx).fee_bumps ≤ suc tx.fee_bumps
  unfolding rebuild
  rebuild-bumps nonce tx = elim (Bool-cases (ltb tx.fee_bumps 3)) [
    | inl left ↦ rw (left) (omega arith)
    | inr none_left ↦ rw (none_left) (omega arith)
  ]

  rebuild-Follows :
      (n nonce : ℕ) (tx : Built) (e : ErrorValue)
      → is_nonce_conflict_error network.matches e 0 ≡ true
      → network.pending n ≡ ok nonce
      → tx.fee_bumps < 3
      → Follows n tx (rebuild nonce tx) (err e)
  unfolding rebuild bump_fee_overrides
  rebuild-Follows n nonce tx e c p h =
      let bumps : ltb tx.fee_bumps 3 ≡ true = ground (arith, h) in
      rw (c, bumps)
        (
          p,
          bump_fee-Replaces tx.fees.max_fee_per_gas,
          bump_fee-Replaces tx.fees.max_priority_fee_per_gas,
        )

  -- The next turn of the loop, from a transaction that follows.
  again-Continues :
      (left n : ℕ) (tx new : Built)
      → Follows n tx new (network.confirm n)
      → Continues (suc n) left new (
          after_send network left
            (suc n)
            new
            (λ t. send_loop network left (suc (suc n)) t)
            (network.confirm (suc n)))
      → Continues n (suc left) tx (send_loop network (suc left) (suc n) new)
  unfolding send_loop
  again-Continues left n tx new f h = Continues-next n left tx new _ f h

  send_rebuilt-Continues :
      (left n : ℕ) (tx : Built) (thrown : ErrorValue) (answer : Result ErrorValue ℕ)
      → network.pending n ≡ answer
      → network.confirm n ≡ err thrown
      → is_nonce_conflict_error network.matches thrown 0 ≡ true
      → tx.fee_bumps < 3
      → ((new : Built)
          → new.fee_bumps ≤ suc tx.fee_bumps
          → Continues (suc n) left new (
              after_send network left
                (suc n)
                new
                (λ t. send_loop network left (suc (suc n)) t)
                (network.confirm (suc n))))
      → Continues n
          (suc left)
          tx
          (send_rebuilt network tx (λ t. send_loop network (suc left) (suc n) t) answer)
  unfolding send_rebuilt
  send_rebuilt-Continues left n tx thrown (err e) p c conflict b h =
      Continues-last n (suc left) tx (err (Thrown.failed e))
        (inr (inl (ap network.pending (omega arith) ∙ p)))
  send_rebuilt-Continues left n tx thrown (ok nonce) p c conflict b h =
      again-Continues left n tx (rebuild nonce tx)
        (subst (Follows n tx (rebuild nonce tx)) (sym c)
          (rebuild-Follows n nonce tx thrown conflict p b))
        (h (rebuild nonce tx) (rebuild-bumps nonce tx))

  after_send-Continues :
      (left n : ℕ) (tx : Built) (answer : Result ErrorValue String)
      → network.confirm n ≡ answer
      → n + left ≡ 3
      → tx.fee_bumps < n
      → Continues n left tx
          (after_send network left n tx (λ t. send_loop network left (suc n) t) answer)
  unfolding after_send
  after_send-Continues left n tx (ok hash) e k b =
      Continues-last n left tx (ok hash) (ap network.confirm (omega arith) ∙ e)
  after_send-Continues zero n tx (err thrown) e k b =
      Continues-last n 0 tx (err (Thrown.failed thrown))
        (inl (ap network.confirm (omega arith) ∙ e))
  after_send-Continues (suc left) n tx (err thrown) e k b =
      let more : (suc left == 0) ≡ false = ground arith in
      elim (Bool-cases (is_nonce_conflict_error network.matches thrown 0)) [
        | inl conflict ↦
            rw (more, conflict)
              (send_rebuilt-Continues left n tx thrown (network.pending n) refl e conflict
                (omega arith)
                (λ new few.
                  after_send-Continues left (suc n) new (network.confirm (suc n)) refl (omega arith)
                    (omega arith)))
        | inr other ↦
            rw (more, other)
              (again-Continues left n tx tx (subst (Follows n tx tx) (sym e) (rw (other) refl)) (
                after_send-Continues left (suc n) tx (network.confirm (suc n)) refl (omega arith)
                  (omega arith)))
      ]

  start_sends-Resends :
      (fees : Result ErrorValue FeeOverrides) (nonce : Result ErrorValue ℕ)
      → ((e : ErrorValue) → fees ≡ err e → network.fee_data ≡ err e)
      → network.pending 0 ≡ nonce
      → (length (start_sends network fees nonce).1 ≤ 3)
        × AllFollow 1 (start_sends network fees nonce).1
        × EndsWith 0 (length (start_sends network fees nonce).1) (start_sends network fees nonce).0
  unfolding start_sends send_loop
  start_sends-Resends (err e) nonce f p = (omega arith, tt, inr (inr (f e refl)))
  start_sends-Resends (ok fees) (err e) f p = (omega arith, tt, inr (inl p))
  start_sends-Resends (ok fees) (ok nonce) f p =
      let tx : Built = record { nonce = nonce; fees = fees; fee_bumps = 0 } in
      let h = after_send-Continues 2 1 tx (network.confirm 1) refl refl (omega arith) in
      (omega (arith, h.few), h.follow, EndsWith-same 0 _ 1 _ _ (omega arith) h.ends)

initial_fee_overrides-thrown :
    (data_ : Result ErrorValue FeeData) (e : ErrorValue)
    → initial_fee_overrides data_ ≡ err e
    → data_ ≡ err e
unfolding initial_fee_overrides
initial_fee_overrides-thrown (err x) e h = ap (λ r. elim r [ err y ↦ err y | ok v ↦ err x ]) h
initial_fee_overrides-thrown (ok v) e h = cc h

-- Whatever the network answers: at most three transactions are sent; each but the first follows an
-- attempt that failed, with the pending nonce and both fees raised by 12 percent, rounded up, if that
-- was a nonce conflict, and unchanged if not; and the run ends, with the last transaction's hash or
-- with an error that the network gave.
pub send_confirm_execution-Resends :
    (network : Network)
    → (length (send_confirm_execution network).1 ≤ 3)
      × AllFollow network 1 (send_confirm_execution network).1
      × EndsWith network 0
          (length (send_confirm_execution network).1)
          (send_confirm_execution network).0
unfolding send_confirm_execution
send_confirm_execution-Resends network =
    start_sends-Resends network (initial_fee_overrides network.fee_data) (network.pending 0)
      (λ e h. initial_fee_overrides-thrown network.fee_data e h) refl
