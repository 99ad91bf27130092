-- ===== src/Processor/Engine/Sets.antt =====
-- The set `inProcess` as a list without repetition.
use bosphor.Base.{
  String, true, false, not, ◌&&◌, ◌||◌, ◌≡◌, refl, ap, List, [], ◌∷◌, ◌++◌, str_eq, eq_iff,
  Bool-cases, inl, inr, All, arith,
}
use bosphor.Processor.Engine.{has, add_id, delete_id, forget, add_all}

-- No id twice.
abbrev pub Distinct : List String → Type 0
Distinct [] = Unit
Distinct (x ∷ xs) = (has x xs ≡ false) × Distinct xs

-- Of the first, none is among the others.
abbrev pub Apart : List String → List String → Type 0
Apart ids others = All (λ id. has id others ≡ false) ids

pub has-append : (id : String) (xs ys : List String) → has id (xs ++ ys) ≡ has id xs || has id ys
has-append id [] ys = refl
has-append id (x ∷ xs) ys = ground (arith, has-append id xs ys)

pub str_eq_comm : (s t : String) → str_eq s t ≡ str_eq t s
str_eq_comm s t = ground (arith, eq_iff s t, eq_iff t s)

not_has_of_Apart : (x : String) (xs ids : List String) → Apart ids (x ∷ xs) → has x ids ≡ false
not_has_of_Apart x xs [] h = refl
not_has_of_Apart x xs (id ∷ ids) (h, hs) =
    ground (arith, str_eq_comm x id, not_has_of_Apart x xs ids hs)

Apart-tail : (x : String) (xs ids : List String) → Apart ids (x ∷ xs) → Apart ids xs
Apart-tail x xs [] h = tt
Apart-tail x xs (id ∷ ids) (h, hs) = (ground arith, Apart-tail x xs ids hs)

pub Distinct-append :
    (xs ids : List String) → Distinct xs → Distinct ids → Apart ids xs → Distinct (xs ++ ids)
Distinct-append [] ids h k a = k
Distinct-append (x ∷ xs) ids (h, hs) k a = (
  ground (arith, has-append x xs ids, not_has_of_Apart x xs ids a),
  Distinct-append xs ids hs k (Apart-tail x xs ids a),
)

has-same : (x y : String) (xs : List String) → str_eq x y ≡ true → has x xs ≡ has y xs
has-same x y xs h = ap (λ z. has z xs) ((eq_iff x y).0 h)

pub has-forget :
    (id y : String) (xs : List String)
    → Distinct xs
    → has y (forget id xs) ≡ (has y xs && not (str_eq id y))
unfolding forget
has-forget id y [] h = refl
has-forget id y (x ∷ xs) (h, hs) =
    ground (arith, has-forget id y xs hs, has-same x y xs, eq_iff x id, eq_iff id y, eq_iff x y)

pub Distinct-forget : (id : String) (xs : List String) → Distinct xs → Distinct (forget id xs)
unfolding forget
Distinct-forget id [] h = tt
Distinct-forget id (x ∷ xs) (h, hs) = elim (Bool-cases (str_eq x id)) [
  | inl same ↦ rw same hs
  | inr other ↦ rw other ((ground (arith, has-forget id x xs hs), Distinct-forget id xs hs))
]

pub has-delete_id :
    (id y : String) (xs : List String) → has y (delete_id id xs) ≡ (has y xs && not (str_eq id y))
unfolding delete_id
has-delete_id id y [] = refl
has-delete_id id y (x ∷ xs) =
    ground (arith, has-delete_id id y xs, eq_iff x id, eq_iff id y, eq_iff x y)

has-add_id : (id y : String) (xs : List String) → has y (add_id id xs) ≡ (has y xs || str_eq id y)
unfolding add_id
has-add_id id y xs = ground (arith, has-append y xs (id ∷ []), has-same id y xs)

pub has-add_all :
    (ids : List String) (y : String) (xs : List String)
    → has y (add_all ids xs) ≡ (has y xs || has y ids)
has-add_all [] y xs = ground arith
has-add_all (id ∷ ids) y xs = ground (arith, has-add_all ids y (add_id id xs), has-add_id id y xs)
