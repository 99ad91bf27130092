-- ===== src/Solana/Watcher/History.antt =====
-- The program's history on the network, what the answers of an honest connection say of it, and the
-- events that its transactions bring.
use mathlib.Core.List.{reverse, reverse-cons, append_assoc}
use bosphor.Base.{
  ℕ, String, zero, suc, ◌≤◌, Option, none, some, List, [], ◌∷◌, ◌++◌, map, ◌≡◌, ◌≢◌, refl, sym, ap,
  ◌∙◌, inl, inr, Option-cases, if◌then◌else◌, or_else, length, take, length-append, arith,
}
use bosphor.Solana.Poll.{
  Signature, SolanaSubmittedEvent, Connection, events_in, read_signatures, signature_page_limit,
}
use bosphor.Solana.Watcher.{Watcher, Answers, poll_once}

-- The newest of the transactions, which come oldest first.
abbrev pub last_signature : List Signature → Option String
last_signature [] = none
last_signature (s ∷ []) = some s.signature
last_signature (s ∷ t ∷ sigs) = last_signature (t ∷ sigs)

pub last_signature-append :
    (xs : List Signature) (s : Signature) → last_signature (xs ++ (s ∷ [])) ≡ some s.signature
last_signature-append [] s = refl
last_signature-append (x ∷ []) s = refl
last_signature-append (x ∷ y ∷ xs) s = last_signature-append (y ∷ xs) s

pub length-reverse {ℓ} : {A : Type ℓ} (xs : List A) → length (reverse xs) ≡ length xs
length-reverse [] = refl
length-reverse (x ∷ xs) =
    ap length (reverse-cons x xs)
    ∙ omega (arith, length-append (reverse xs) (x ∷ []), length-reverse xs)

pub take_all {ℓ} : {A : Type ℓ} (n : ℕ) (xs : List A) → length xs ≤ n → take n xs ≡ xs
take_all zero [] h = refl
take_all zero (x ∷ xs) h = absurd (omega arith)
take_all (suc n) [] h = refl
take_all (suc n) (x ∷ xs) h = ap (◌∷◌ x) (take_all n xs (omega arith))

-- The network has this history of the program, oldest first: a page since a transaction has the
-- newest of those behind it, and a transaction of the history that is read has its log lines.
pub record IsOf (logs_of : String → List String) (history : List Signature)
    (connection : Connection) : Type 0 where
  pub page :
      (older newer : List Signature) (limit : ℕ) (sigs : List Signature)
      → history ≡ older ++ newer
      → connection.signatures (last_signature older) limit ≡ some sigs
      → sigs ≡ take limit (reverse newer)
  pub logs :
      (signature : String) (logs : Option (List String))
      → connection.transaction signature ≡ some logs
      → or_else logs [] ≡ logs_of signature

-- A poll, and the transactions that came before it.
pub record Turn : Type 0 where
  pub grown : List Signature
  pub answers : Answers

abbrev pub history_after : List Turn → List Signature → List Signature
history_after [] history = history
history_after (t ∷ turns) history = history_after turns (history ++ t.grown)

abbrev pub answers_of : List Turn → List Answers
answers_of turns = map (λ t. t.answers) turns

-- Each poll is answered from the history as it is then.
abbrev pub Honest : (String → List String) → List Turn → List Signature → Type 0
Honest logs_of [] history = Unit
Honest logs_of (t ∷ turns) history =
    IsOf logs_of (history ++ t.grown) t.answers.connection
    × Honest logs_of turns (history ++ t.grown)

-- No poll has more transactions behind the cursor than a page holds.
abbrev pub Fits :
    (List ℕ → String) → (String → List ℕ) → String → List Turn → List Signature → Watcher → Type 0
Fits hexlify base64_bytes recipient [] history w = Unit
Fits hexlify base64_bytes recipient (t ∷ turns) history w =
    ((older newer : List Signature)
      → history ++ t.grown ≡ older ++ newer
      → last_signature older ≡ w.cursor
      → length newer ≤ signature_page_limit)
    × Fits hexlify base64_bytes recipient turns (history ++ t.grown)
        (poll_once hexlify base64_bytes recipient t.answers w)

module _ (hexlify : List ℕ → String) (base64_bytes : String → List ℕ)
    (logs_of : String → List String) where
  -- The events of transactions that did not fail.
  unfoldable pub events_of : List Signature → List SolanaSubmittedEvent
  events_of [] = []
  events_of (s ∷ sigs) =
      (if s.failed then [] else events_in hexlify base64_bytes s.signature (logs_of s.signature))
      ++ events_of sigs

  pub events_of-append :
      (xs ys : List Signature) → events_of (xs ++ ys) ≡ events_of xs ++ events_of ys
  unfolding events_of
  events_of-append [] ys = refl
  events_of-append (x ∷ xs) ys =
      ap (◌++◌ _) (events_of-append xs ys) ∙ sym (append_assoc _ (events_of xs) (events_of ys))

  pub read_signatures-events_of :
      (connection : Connection) (sigs : List Signature) (events : List SolanaSubmittedEvent)
      → ((signature : String) (logs : Option (List String))
          → connection.transaction signature ≡ some logs
          → or_else logs [] ≡ logs_of signature)
      → read_signatures hexlify base64_bytes connection sigs ≡ some events
      → events ≡ events_of sigs
  unfolding read_signatures events_of
  read_signatures-events_of connection [] events logs h = ap (λ o. or_else o []) (sym h)
  read_signatures-events_of connection (s ∷ sigs) events logs h =
      elim (Option-cases (read_signatures hexlify base64_bytes connection sigs)) [
        | inl failed ↦ ground (arith)
        | inr (rest, came) ↦
            let ih = read_signatures-events_of connection sigs rest logs came in
            elim (Option-cases (connection.transaction s.signature)) [
              | inl lost ↦ ground arith
              | inr (found, e) ↦ ground (arith, logs s.signature found e)
            ]
      ]

  pub read_signatures-served :
      (connection : Connection) (sigs : List Signature)
      → ((signature : String) → connection.transaction signature ≢ none)
      → read_signatures hexlify base64_bytes connection sigs ≢ none
  unfolding read_signatures
  read_signatures-served connection [] served = λ e. cc
  read_signatures-served connection (s ∷ sigs) served =
      let ih = read_signatures-served connection sigs served in
      let own = served s.signature in
      elim (Option-cases (read_signatures hexlify base64_bytes connection sigs)) [
        | inl failed ↦ absurd (ih failed)
        | inr (rest, came) ↦ elim (Option-cases (connection.transaction s.signature)) [
          | inl lost ↦ absurd (own lost)
          | inr (found, e) ↦ λ failed. ground arith
        ]
      ]
