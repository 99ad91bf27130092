-- ===== src/Solana/Tests.antt =====
-- A program with two intents and a transaction that failed; the second poll finds the node down.
use mathlib.Core.List.{reverse}
use bosphor.Codec.Solana.{intent_submitted_disc}
use bosphor.Base.{
  ℕ, String, zero, suc, ◌≤◌, length-append, ◌∙◌, ◌≡◌, refl, sym, ap, Option, none, some, List, [],
  ◌∷◌, ◌++◌, map, true, false, take, or_else, length, arith,
}
use bosphor.Solana.Poll.{Signature, Connection}
use bosphor.Solana.Watcher.{Watcher, submitted_call, run}
use bosphor.Solana.Watcher.History.{last_signature, IsOf, Turn, answers_of, events_of}
use bosphor.Solana.Watcher.Paged.{run-Reports}

zeros : ℕ → List ℕ
zeros zero = []
zeros (suc n) = 0 ∷ zeros n

abbrev hexlify : List ℕ → String
hexlify bytes = "0x"

-- Every line carries the same event.
base64_bytes : String → List ℕ
unfolding zeros
base64_bytes text = intent_submitted_disc ++ zeros 165

abbrev logs_of : String → List String
logs_of signature = "Program log: x" ∷ "Program data: AA==" ∷ []

abbrev history : List Signature
history =
    record { signature = "s1"; failed = false }
    ∷ record { signature = "s2"; failed = true }
    ∷ record { signature = "s3"; failed = false }
    ∷ []

abbrev page_since : Option String → ℕ → Option (List Signature)
page_since none limit = some (take limit (reverse history))
page_since (some signature) limit = none

abbrev node : Connection
node = record {
  signatures = page_since;
  transaction = λ signature. some (some (logs_of signature));
}

abbrev down : Connection
down = record { signatures = λ until limit. none; transaction = λ signature. none }

down-IsOf : (h : List Signature) → IsOf logs_of h down
down-IsOf h = record { page = λ older newer limit sigs parts e. cc; logs = λ signature logs e. cc }

last_signature-cons :
    (s : Signature) (sigs : List Signature) → (u : String) × (last_signature (s ∷ sigs) ≡ some u)
last_signature-cons s [] = (s.signature, refl)
last_signature-cons s (t ∷ sigs) = last_signature-cons t sigs

node_page :
    (older newer : List Signature) (limit : ℕ) (sigs : List Signature)
    → history ≡ older ++ newer
    → page_since (last_signature older) limit ≡ some sigs
    → sigs ≡ take limit (reverse newer)
node_page [] newer limit sigs parts e =
    ap (λ o. or_else o []) (sym e) ∙ ap (λ h. take limit (reverse h)) parts
node_page (s ∷ older) newer limit sigs parts e =
    let (u, last) = last_signature-cons s older in
    let none_left : page_since (last_signature (s ∷ older)) limit ≡ none =
      ap (λ o. page_since o limit) last in
    absurd (cc)

node-IsOf : IsOf logs_of history node
node-IsOf = record {
  page = node_page;
  logs = λ signature logs e. ap (λ o. or_else (or_else o none) []) (sym e);
}

abbrev watcher : Watcher
watcher = record { cursor = none; feed = record { records = []; tried = [] } }

abbrev first : Turn
first = record {
  grown = take 2 history;
  answers = record { connection = down; serves = λ n. none };
}

abbrev second : Turn
second = record {
  grown = record { signature = "s3"; failed = false } ∷ [];
  answers = record { connection = node; serves = λ n. some 100 };
}

two_reported :
    length (run hexlify base64_bytes "0xr" (answers_of (first ∷ second ∷ [])) watcher).feed.tried
    ≡ 2
unfolding run base64_bytes
two_reported = refl

run-Reports_example :
    let after = run hexlify base64_bytes "0xr" (answers_of (first ∷ second ∷ [])) watcher in
    (since : List Signature) × (history ≡ [] ++ since)
    × (after.feed.tried ≡ map (submitted_call "0xr") (events_of hexlify base64_bytes logs_of since))
    × (after.cursor ≡ last_signature history)
unfolding run
run-Reports_example =
    run-Reports hexlify base64_bytes logs_of "0xr" [] watcher (first ∷ []) second refl refl
      (down-IsOf _, (node-IsOf, tt))
      (
        (λ older newer parts behind. short older newer (take 2 history) parts (omega arith)),
        ((λ older newer parts behind. short older newer history parts (omega arith)), tt),
      )
      (λ e. cc) (λ signature e. cc)
  where
    short :
        (older newer whole : List Signature)
        → whole ≡ older ++ newer
        → length whole ≤ 100
        → length newer ≤ 100
    short older newer whole parts few =
        omega (arith, ap (λ xs. length xs) parts, length-append older newer)
