-- ===== src/Staged/Table.antt =====
-- What the SQL statements of relayer/src/staged/staged-intent.store.ts do to a table: the table
-- `staged_intent` is the list of its rows, and `intent_id` is its primary key.
use bosphor.Base.{
  String, Bool, ◌≡◌, inl, inr, Bool-cases, Option-cases, refl, Option, none, some, List, [], ◌∷◌,
  arith, All, true, false, if◌then◌else◌, str_eq, eq_iff, All,
}
use mathlib.Core.Path.{subst}
use bosphor.Staged.Types.{Row}

abbrev pub Table : Type 0
Table = List Row

-- SELECT ... WHERE intent_id = id.
abbrev pub find : String → Table → Option Row
find id [] = none
find id (r ∷ t) = if str_eq r.intent_id id then some r else find id t

-- UPDATE ... SET f WHERE p.
abbrev pub update_where : (Row → Bool) → (Row → Row) → Table → Table
update_where p f [] = []
update_where p f (r ∷ t) = (if p r then f r else r) ∷ update_where p f t

abbrev pub has_id : String → Row → Bool
has_id id r = str_eq r.intent_id id

-- UPDATE ... SET f WHERE intent_id = id.
abbrev pub update : String → (Row → Row) → Table → Table
update id f t = update_where (has_id id) f t

-- The primary key: no id twice.
abbrev pub Keyed : Table → Type 0
Keyed [] = Unit {0}
Keyed (r ∷ t) = (find r.intent_id t ≡ none) × Keyed t

-- A column change that leaves the key alone.
abbrev pub KeepsId : (Row → Row) → Type 0
KeepsId f = (r : Row) → (f r).intent_id ≡ r.intent_id

pub str_eq_self : (s : String) → str_eq s s ≡ true
str_eq_self s = (eq_iff s s).1 refl

module _ (p : Row → Bool) (f : Row → Row) (keeps : KeepsId f) where
  pub find-update_where :
      (id : String) (t : Table)
      → find id (update_where p f t)
        ≡ elim (find id t) [ none ↦ none | some r ↦ some (if p r then f r else r) ]
  find-update_where id [] = refl
  find-update_where id (r ∷ t) = ground (arith, keeps r, find-update_where id t)

  -- A row that the test passes over stays as it is.
  pub find-update_where_same :
      (id : String) (t : Table) (r : Row)
      → find id t ≡ some r
      → p r ≡ false
      → find id (update_where p f t) ≡ some r
  find-update_where_same id t r h skip = ground (arith, find-update_where id t)

  -- A row that the test takes is changed.
  pub find-update_where_hit :
      (id : String) (t : Table) (r : Row)
      → find id t ≡ some r
      → p r ≡ true
      → find id (update_where p f t) ≡ some (f r)
  find-update_where_hit id t r h hit = ground (arith, find-update_where id t)

  pub update_where-Keyed : (t : Table) → Keyed t → Keyed (update_where p f t)
  update_where-Keyed [] h = tt
  update_where-Keyed (r ∷ t) (fresh, h) =
      (ground (arith, keeps r, find-update_where r.intent_id t), update_where-Keyed t h)

pub find-intent_id : (id : String) (t : Table) (r : Row) → find id t ≡ some r → r.intent_id ≡ id
find-intent_id id [] r h = ground arith
find-intent_id id (s ∷ t) r h = ground (arith, eq_iff s.intent_id id, find-intent_id id t r)

pub find-none_of_str_eq :
    (a b : String) (t : Table) → str_eq a b ≡ true → find a t ≡ none → find b t ≡ none
find-none_of_str_eq a b t e h = subst (λ c. find c t ≡ none) ((eq_iff a b).0 e) h

pub find-has_id : (id : String) (t : Table) (r : Row) → find id t ≡ some r → has_id id r ≡ true
find-has_id id [] r h = ground arith
find-has_id id (s ∷ t) r h = ground (arith, find-has_id id t r)

module _ (id : String) (f : Row → Row) (keeps : KeepsId f) (t : Table) where
  pub find-update_self : (r : Row) → find id t ≡ some r → find id (update id f t) ≡ some (f r)
  find-update_self r h =
      ground (arith, find-update_where (has_id id) f keeps id t, find-has_id id t r h)

  pub find-update-none : find id t ≡ none → find id (update id f t) ≡ none
  find-update-none h = ground (arith, find-update_where (has_id id) f keeps id t)

  -- Another id's row is left alone.
  pub find-update_ne :
      (other : String) → str_eq id other ≡ false → find other (update id f t) ≡ find other t
  find-update_ne other ne = elim (Option-cases (find other t)) [
    | inl e ↦ ground (arith, find-update_where (has_id id) f keeps other t)
    | inr (r, e) ↦ ground (
      arith,
      find-update_where (has_id id) f keeps other t,
      find-has_id other t r e,
      eq_iff r.intent_id other,
      eq_iff r.intent_id id,
      eq_iff id other,
    )
  ]

Found-cons :
    (r : Row) (t us : Table)
    → find r.intent_id t ≡ none
    → All (λ x. find x.intent_id t ≡ some x) us
    → All (λ x. find x.intent_id (r ∷ t) ≡ some x) us
Found-cons r t [] fresh h = tt
Found-cons r t (u ∷ us) fresh (f, h) = (
  ground (arith, f, fresh, find-none_of_str_eq r.intent_id u.intent_id t),
  Found-cons r t us fresh h,
)

-- In a keyed table every row is the one found under its id.
pub Keyed-found : (t : Table) → Keyed t → All (λ x. find x.intent_id t ≡ some x) t
Keyed-found [] k = tt
Keyed-found (r ∷ t) (fresh, k) =
    (ground (arith, str_eq_self r.intent_id), Found-cons r t t fresh (Keyed-found t k))

-- The row under an id is there, and has a property.
abbrev pub RowIs : String → (Row → Type 0) → Table → Type 0
RowIs id P t = (r : Row) × (find id t ≡ some r) × P r

pub update-RowIs :
    (id : String) (f : Row → Row) (keeps : KeepsId f) (P Q : Row → Type 0) (t : Table)
    → ((r : Row) → P r → Q (f r))
    → RowIs id P t
    → RowIs id Q (update id f t)
update-RowIs id f keeps P Q t k (r, found, p) = (f r, find-update_self id f keeps t r found, k r p)

-- A statement about any rows keeps a property that its column change keeps.
pub update_where-RowIs :
    (p : Row → Bool) (f : Row → Row) (keeps : KeepsId f) (id : String) (P : Row → Type 0)
    (t : Table)
    → ((r : Row) → P r → P (f r))
    → RowIs id P t
    → RowIs id P (update_where p f t)
update_where-RowIs p f keeps id P t k (r, found, h) = elim (Bool-cases (p r)) [
  | inl e ↦ (f r, find-update_where_hit p f keeps id t r found e, k r h)
  | inr e ↦ (r, find-update_where_same p f keeps id t r found e, h)
]

-- So does an insertion under an id that is new.
pub insert-RowIs :
    (new : Row) (id : String) (P : Row → Type 0) (t : Table)
    → find new.intent_id t ≡ none
    → RowIs id P t
    → RowIs id P (new ∷ t)
insert-RowIs new id P t fresh (r, found, h) =
    (r, ground (arith, find-none_of_str_eq new.intent_id id t), h)
