-- ===== src/Base/Result.antt =====
-- The outcome of code that may throw: its value, or what it threw.
use mathlib.Core.Path.{Path, ◌≡◌, refl, ap}

pub data Result {ℓ} (Thrown Value : Type ℓ) : Type ℓ where
  err : Thrown → Result Thrown Value
  ok : Value → Result Thrown Value

-- The next statement runs on the value, and is skipped on an error.
infixl 5 ◌>>=◌
abbrev pub ◌>>=◌ {ℓ} :
    {Thrown Value Next : Type ℓ} (before : Result Thrown Value)
    → (Value → Result Thrown Next)
    → Result Thrown Next
before >>= next = elim before [ err thrown ↦ err thrown | ok value ↦ next value ]

pub ok-injective :
    {Thrown Value : Type 0} (x y : Value) → Path (Result Thrown Value) (ok x) (ok y) → x ≡ y
ok-injective x y h = ap (λ r. elim r [ err thrown ↦ x | ok value ↦ value ]) h

-- A statement and the next that came through.
pub next-ok :
    {Thrown Value Next : Type 0} (before : Result Thrown Value) (next : Value → Result Thrown Next)
    (b : Next)
    → (before >>= next) ≡ ok b
    → (a : Value) × (before ≡ ok a) × (next a ≡ ok b)
next-ok (err thrown) next b e = cc e
next-ok (ok a) next b e = (a, refl, e)
