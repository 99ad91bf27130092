-- ===== src/Processor/Triple.antt =====
-- Rules for attempts (`M`), one for each way to build one: what holds of the state before it, after
-- its result, and after its failure.
use bosphor.Base.{
  List, ℕ, String, Bool, Option, none, some, ◌≡◌, refl, true, false, if◌then◌else◌, suc, ◌∷◌,
}
use bosphor.Base.Result.{Result, ok, err}
use bosphor.Staged.Table.{Table}
use bosphor.Lifecycle.{IntentHop, HopDetails, record_hop}
use bosphor.Processor.World.{
  M, World, Env, Event, Failure, plain, continue, ◌>>=◌, pure, throw, call, caught, catch, also,
  emit, now, written, write, persisted, persist, read_table, track_hop,
}

abbrev pub Ends :
    {U A : Type 0}
    → (A → World U → Type 0)
    → (Failure → World U → Type 0)
    → Result Failure A × World U
    → Type 0
Ends Q E (ok a, w) = Q a w
Ends Q E (err e, w) = E e w

pub record Triple {U A : Type 0} (P : World U → Type 0) (m : M U A) (Q : A → World U → Type 0)
    (E : Failure → World U → Type 0) : Type 0 where
  pub at : (w : World U) → P w → Ends Q E (m w)

-- A fact about the queue's table and the trace.
pub record On {U : Type 0} (p : Table → List (Event U) → Type 0) (w : World U) : Type 0 where
  pub fact : p w.table w.trace

module _ {U A B : Type 0} {R : A → World U → Type 0} {Q : B → World U → Type 0}
    {E : Failure → World U → Type 0} where
  continue-Ends :
      (f : A → M U B)
      → ((a : A) → Triple (R a) (f a) Q E)
      → (x : Result Failure A × World U) → Ends R E x
      → Ends Q E (continue x.0 f x.1)
  continue-Ends f k (ok a, w) h = (k a).at w h
  continue-Ends f k (err e, w) h = h

  pub Triple-bind :
      {P : World U → Type 0} (m : M U A) (f : A → M U B)
      → Triple P m R E
      → ((a : A) → Triple (R a) (f a) Q E)
      → Triple P (m >>= f) Q E
  unfolding ◌>>=◌
  Triple-bind m f t k = record { at = λ w p. continue-Ends f k (m w) (t.at w p) }

module _ {U A B : Type 0} {P R S : World U → Type 0} where
  pub Triple-also :
      (m : M U A) (n : M U B)
      → Triple P m (λ _. R) (λ _. R)
      → Triple R n (λ _. S) (λ _. S)
      → Triple P (also m n) (λ _. S) (λ _. S)
  unfolding also
  Triple-also m n t u = record { at = λ w p. ends (m w) (t.at w p) }
    where
      after : (x : Result Failure B × World U) → Ends (λ _. S) (λ _. S) x → S x.1
      after (ok b, w) h = h
      after (err e, w) h = h

      ends :
          (x : Result Failure A × World U)
          → Ends (λ _. R) (λ _. R) x
          → Ends {A = A} (λ _. S) (λ _. S) (x.0, (n x.1).1)
      ends (ok a, w) r = after (n w) (u.at w r)
      ends (err e, w) r = after (n w) (u.at w r)

module _ {U A : Type 0} {Q : A → World U → Type 0} {E F : Failure → World U → Type 0} where
  caught-Ends :
      (h : Failure → M U A)
      → ((e : Failure) → Triple (F e) (h e) Q E)
      → (x : Result Failure A × World U) → Ends Q F x
      → Ends Q E (caught h x.0 x.1)
  caught-Ends h k (ok a, w) q = q
  caught-Ends h k (err e, w) q = (k e).at w q

  pub Triple-catch :
      {P : World U → Type 0} (m : M U A) (h : Failure → M U A)
      → Triple P m Q F
      → ((e : Failure) → Triple (F e) (h e) Q E)
      → Triple P (catch m h) Q E
  unfolding catch
  Triple-catch m h t k = record { at = λ w p. caught-Ends h k (m w) (t.at w p) }

module _ {U A : Type 0} {P : World U → Type 0} {Q : A → World U → Type 0}
    {E : Failure → World U → Type 0} where
  pub Triple-pure : (a : A) → ((w : World U) → P w → Q a w) → Triple P (pure a) Q E
  unfolding pure
  Triple-pure a h = record { at = h }

  pub Triple-throw : (e : Failure) → ((w : World U) → P w → E e w) → Triple P (throw e) Q E
  unfolding throw
  Triple-throw e h = record { at = h }

  pub Triple-call :
      (r : Result String A)
      → ((a : A) (w : World U) → r ≡ ok a → P w → Q a w)
      → ((m : String) (w : World U) → P w → E (plain m) w)
      → Triple P (call r) Q E
  unfolding call
  Triple-call (ok a) q e = record { at = λ w p. q a w refl p }
  Triple-call (err m) q e = record { at = λ w p. e m w p }

  pub Triple-read :
      (refused : Option String) (f : Table → A)
      → ((a : A) (w : World U) → P w → Q a w)
      → ((m : String) (w : World U) → P w → E (plain m) w)
      → Triple P (read_table refused f) Q E
  unfolding read_table
  Triple-read none f q e = record { at = λ w p. q (f w.table) w p }
  Triple-read (some m) f q e = record { at = λ w p. e m w p }

  pub Triple-if :
      (b : Bool) (m n : M U A)
      → (b ≡ true → Triple P m Q E)
      → (b ≡ false → Triple P n Q E)
      → Triple P (if b then m else n) Q E
  Triple-if true m n t f = t refl
  Triple-if false m n t f = f refl

-- A fact that does not speak of the state.
module _ {U A C : Type 0} {P : World U → Type 0} {Q : A → World U → Type 0}
    {E : Failure → World U → Type 0} where
  pub Triple-given : (m : M U A) → (C → Triple P m Q E) → Triple (λ w. P w × C) m Q E
  Triple-given m t = record { at = λ w k. (t k.1).at w k.0 }

module _ {U : Type 0} {p q : Table → List (Event U) → Type 0} {E : Failure → World U → Type 0} where
  pub Triple-write :
      (env : Env U) (f : ℕ → Table → Table)
      → ((now : ℕ) (t : Table) (tr : List (Event U)) → p t tr → q (f now t) tr)
      → ((i : ℕ) (m : String)
          → env.queue_refuses i ≡ some m
          → (w : World U) → On p w
          → E (plain m) w)
      → Triple (On p) (write env f) (λ _. On q) E
  unfolding write
  Triple-write env f h e = record { at = λ w k. ends w k (env.queue_refuses w.reads) refl }
    where
      ends :
          (w : World U)
          → On p w
          → (o : Option String) → env.queue_refuses w.reads ≡ o
          → Ends (λ _. On q) E (written o (env.time w.reads) f w)
      ends w k none r = record { fact = h (env.time w.reads) w.table w.trace k.fact }
      ends w k (some m) r =
          e w.reads m r (record w { reads = suc w.reads }) (record { fact = k.fact })

  pub Triple-persist :
      (env : Env U) (id : String) (f : ℕ → Table → Table)
      → ((now : ℕ) (t : Table) (tr : List (Event U)) → p t tr → q (f now t) tr)
      → ((m : String) (w : World U)
          → On p w
          → E (plain m) (record w { trace = Event.upload_unrecorded id ∷ w.trace }))
      → Triple (On p) (persist env id f) (λ _. On q) E
  unfolding persist
  Triple-persist env id f h e = record { at = λ w k. ends w k env.persist_refused }
    where
      ends :
          (w : World U)
          → On p w
          → (o : Option String) → Ends (λ _. On q) E (persisted o id (env.time w.reads) f w)
      ends w k none = record { fact = h (env.time w.reads) w.table w.trace k.fact }
      ends w k (some m) = e m (record w { reads = suc w.reads }) (record { fact = k.fact })

  pub Triple-emit :
      (e : Event U)
      → ((t : Table) (tr : List (Event U)) → p t tr → q t (e ∷ tr))
      → Triple (On p) (emit e) (λ _. On q) E
  unfolding emit
  Triple-emit e h = record { at = λ w k. record { fact = h w.table w.trace k.fact } }

module _ {U : Type 0} {p : Table → List (Event U) → Type 0} {E : Failure → World U → Type 0} where
  pub Triple-now :
      (env : Env U) → Triple (On p) (now env) (λ at w. On p w × ((i : ℕ) × (at ≡ env.time i))) E
  unfolding now
  Triple-now env = record { at = λ w k. (record { fact = k.fact }, (w.reads, refl)) }

  pub Triple-track_hop :
      (env : Env U) (id : String) (hop : IntentHop) (d : HopDetails)
      → Triple (On p) (track_hop env id hop d) (λ _. On p) E
  unfolding track_hop
  Triple-track_hop env id hop d = record { at = λ w k. stays (env.hop_recorded hop) w k }
    where
      stays :
          (b : Bool) (w : World U)
          → On p w
          → Ends
              (λ _. On p)
              E
              (if b
                then (
                  ok tt,
                  record w {
                    feed = record_hop (env.time w.reads) id hop d w.feed;
                    reads = suc w.reads;
                  },
                )
                else (ok tt, w))
      stays true w k = record { fact = k.fact }
      stays false w k = k
