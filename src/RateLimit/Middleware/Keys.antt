-- ===== src/RateLimit/Middleware/Keys.antt =====
-- The keys of the middleware's windows, by their first letters.
use Prim.Native.Char.{char, code}
use Prim.Native.String.{◌++◌ as str_append, ◌∷◌ as glue, [] as blank}
use Prim.Native.String.append
use bosphor.Base.{
  ℕ, String, true, false, ◌≡◌, sym, ap, ◌∙◌, ltb, str_eq, eq_iff, Bool-cases, inl, inr, arith,
}

abbrev pub head_code : String → ℕ
head_code blank = 0
head_code (glue c s) = code c

tail_of : String → String
tail_of blank = ""
tail_of (glue c s) = s

abbrev pub ip_key : String → String
ip_key address = str_append "ip:" address

ip_key_letters :
    (address : String)
    → ip_key address ≡ glue (char 105 tt) (glue (char 112 tt) (glue (char 58 tt) address))
ip_key_letters address =
    (λ i. append.cons (char 105 tt) "p:" address i)
    ∙ ap (glue (char 105 tt)) (
        (λ i. append.cons (char 112 tt) ":" address i)
        ∙ ap (glue (char 112 tt)) (
            (λ i. append.cons (char 58 tt) "" address i)
            ∙ ap (glue (char 58 tt)) (λ i. append.nil address i)))

pub ip_key-injective : (a b : String) → str_eq (ip_key a) (ip_key b) ≡ true → a ≡ b
unfolding tail_of
ip_key-injective a b e =
    ap (λ s. tail_of (tail_of (tail_of s)))
      (sym (ip_key_letters a) ∙ (eq_iff (ip_key a) (ip_key b)).0 e ∙ ip_key_letters b)

-- Keys that begin with another letter.
pub other_key :
    (key address : String) (n : ℕ)
    → head_code key ≡ n
    → ltb n 105 ≡ true
    → str_eq key (ip_key address) ≡ false
other_key key address n e less = elim (Bool-cases (str_eq key (ip_key address))) [
  | inr no_match ↦ no_match
  | inl same ↦
      let equal : n ≡ 105 =
        sym e ∙ ap head_code ((eq_iff key (ip_key address)).0 same ∙ ip_key_letters address) in
      ground (arith, less, equal)
]

pub encode_key : (x : String) → head_code (str_append "encode:" x) ≡ 101
encode_key x = ap head_code (λ i. append.cons (char 101 tt) "ncode:" x i)

pub app_key : (x : String) → head_code (str_append "app:" x) ≡ 97
app_key x = ap head_code (λ i. append.cons (char 97 tt) "pp:" x i)
