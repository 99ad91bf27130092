-- ===== src/Staged/Retention.antt =====
-- The reaper's pass (relayer/src/staged/staged-reaper.service.ts, and `expireDue`,
-- `expireUnreceived`, `purgeTerminal` of relayer/src/staged/staged-intent.store.ts).
use bosphor.Base.{
  ℕ, String, Bool, ◌+◌, ◌-◌, ◌≤◌, ◌≡◌, refl, some, [], ◌∷◌, true, false, arith, All, All-select,
  select, is_some, if◌then◌else◌, Bool-cases, inl, inr, unless, not, ◌||◌, Option,
}
use bosphor.Staged.Types.{Row, is_active}
use bosphor.Staged.Table.{Table, find, update_where, find-update_where_same, find-update_where_hit}
use bosphor.Staged.Reap.{reap, overdue, orphaned, set_expired, past, purgeable, ReapReport}

-- A deletion keeps the row that is found, if its test passes.
find-select_same :
    (p : Row → Bool) (id : String) (t : Table) (r : Row)
    → find id t ≡ some r
    → p r ≡ true
    → find id (select p t) ≡ some r
find-select_same p id [] r h q = h
find-select_same p id (s ∷ t) r h q = ground (arith, find-select_same p id t r)

-- The row's completed store is still owed to the ledger.
abbrev pub Owes : String → String → Table → Type 0
Owes id digest t =
    (r : Row) × (find id t ≡ some r) × (r.store_digest ≡ some digest) × (r.ledgered ≡ false)

Owes-update_where :
    (p : Row → Bool) (now : ℕ) (id digest : String) (t : Table)
    → Owes id digest t
    → Owes id digest (update_where p (set_expired now) t)
Owes-update_where p now id digest t (r, f, d, l) = elim (Bool-cases (p r)) [
  | inl e ↦
      (set_expired now r, find-update_where_hit p (set_expired now) (λ _. refl) id t r f e, d, l)
  | inr e ↦ (r, find-update_where_same p (set_expired now) (λ _. refl) id t r f e, d, l)
]

-- A store that completed and is not in the ledger survives the reaper's pass, whatever the clock and
-- the retention are and whichever statement fails, and the ledger still owes it.
pub reap-Owes :
    (reaping : Bool) (fails : ℕ → Bool) (retention_ms ttl_ms now : ℕ) (id digest : String)
    (t : Table)
    → Owes id digest t
    → Owes id digest (reap reaping fails retention_ms ttl_ms now t).1
unfolding reap
reap-Owes reaping fails retention_ms ttl_ms now id digest t h =
    let t₁ = update_where (overdue now) (set_expired now) t in
    let t₂ = update_where (orphaned (now - ttl_ms)) (set_expired now) t₁ in
    let h₁ = Owes-update_where (overdue now) now id digest t h in
    let h₂ = Owes-update_where (orphaned (now - ttl_ms)) now id digest t₁ h₁ in
    let purged : Owes id digest (select (λ r. not (purgeable (now - retention_ms) r)) t₂) =
      (h₂.0, find-select_same _ id t₂ h₂.0 h₂.1 (ground (arith, h₂.2, h₂.3)), h₂.2, h₂.3) in
    let Left = λ (o : Option ReapReport × Table). Owes id digest o.1 in
    unless Left (reaping || fails 0) h (λ a.
      unless Left (fails 1) h₁
        (λ b. unless Left (fails 2) h₂ (λ c. unless Left (fails 3) purged (λ d. purged))))

-- What a pass leaves: an active row is within its deadline or has none, and one that has neither a
-- deadline nor the event is within its time to live.
abbrev pub InTime : ℕ → ℕ → Row → Type 0
InTime ttl_ms now r =
    is_active r.state ≡ true
    → (past now r.deadline ≡ false)
      × (r.received ≡ false → is_some r.deadline ≡ false → now ≤ r.created_at + ttl_ms)

abbrev swept : ℕ → ℕ → Row → Row
swept ttl_ms now r =
    let s = if overdue now r then set_expired now r else r in
    if orphaned (now - ttl_ms) s then set_expired now s else s

swept-InTime : (ttl_ms now : ℕ) (r : Row) → InTime ttl_ms now (swept ttl_ms now r)
swept-InTime ttl_ms now r a = (ground arith, λ u d. ground arith)

swept_rows :
    (ttl_ms now : ℕ) (t : Table)
    → All (InTime ttl_ms now) (
        update_where
          (orphaned (now - ttl_ms))
          (set_expired now)
          (update_where (overdue now) (set_expired now) t))
swept_rows ttl_ms now [] = tt
swept_rows ttl_ms now (r ∷ t) = (swept-InTime ttl_ms now r, swept_rows ttl_ms now t)

-- After a pass whose two expiries went through, also if its deletion failed, no active row is past its
-- deadline, and none without deadline and event is older than the time to live.
pub reap-InTime :
    (fails : ℕ → Bool) (retention_ms ttl_ms now : ℕ) (t : Table)
    → fails 0 ≡ false
    → fails 1 ≡ false
    → All (InTime ttl_ms now) (reap false fails retention_ms ttl_ms now t).1
unfolding reap
reap-InTime fails retention_ms ttl_ms now t first second =
    let Left = λ (o : Option ReapReport × Table). All (InTime ttl_ms now) o.1 in
    let left = swept_rows ttl_ms now t in
    let purged = All-select _ _ left (λ r _ h. h) in
    rw (first, second)
      (unless Left (fails 2) left (λ c. unless Left (fails 3) purged (λ d. purged)))
