-- ===== src/Solana/Watcher/Paged.antt =====
-- Each event of the program behind the cursor is reported once and in order, as long as no poll has more
-- new transactions before it than a page holds.
use mathlib.Core.List.{reverse, append-nil, append_assoc}
use mathlib.Core.Path.{subst}
use bosphor.Base.{
  ℕ, String, ◌≤◌, none, some, List, [], ◌∷◌, ◌++◌, map, ◌≡◌, ◌≢◌, sym, ap, ◌∙◌, inl, inr,
  Option-cases, length, arith,
}
use bosphor.Solana.Poll.{Signature, poll_intent_submitted, signature_page_limit}
use bosphor.Solana.Watcher.{Watcher, Answers, submitted_call, poll_once, run}
use bosphor.Solana.Watcher.History.{
  last_signature, length-reverse, take_all, IsOf, Turn, history_after, answers_of, Honest, Fits,
  events_of,
}
use bosphor.Solana.Watcher.Page.{Watched, IsWatched, take_none-Watched, read_page-Watched}

module _ (hexlify : List ℕ → String) (base64_bytes : String → List ℕ)
    (logs_of : String → List String) where
  module _ (recipient : String) (skipped : List Signature) where
    module _ (history : List Signature) (w : Watcher) (read pending : List Signature)
        (h : Watched hexlify base64_bytes logs_of recipient skipped history w read pending) where
      poll_once-Watched :
          (answers : Answers)
          → IsOf logs_of history answers.connection
          → length pending ≤ signature_page_limit
          → (read' : List Signature) × (pending' : List Signature) × Watched hexlify base64_bytes
              logs_of recipient skipped history
              (poll_once hexlify base64_bytes recipient answers w)
              read'
              pending'
            × ((answers.connection.signatures w.cursor signature_page_limit ≢ none)
                → ((signature : String) → answers.connection.transaction signature ≢ none)
                → pending' ≡ [])
      unfolding poll_once poll_intent_submitted
      poll_once-Watched answers network fits =
          elim (Option-cases (answers.connection.signatures w.cursor signature_page_limit)) [
            | inl failed ↦ (
              read,
              pending,
              rw (failed, poll_intent_submitted)
                  (take_none-Watched hexlify base64_bytes logs_of recipient skipped history w read
                    pending h answers.serves),
              λ served. absurd (served failed),
            )
            | inr (page, e) ↦
                let asked : answers.connection.signatures (last_signature (skipped ++ read))
                      signature_page_limit
                    ≡ some page =
                  ap (λ u. answers.connection.signatures u signature_page_limit) h.behind ∙ e in
                let parts : history ≡ (skipped ++ read) ++ pending =
                  h.split ∙ sym (append_assoc skipped read pending) in
                let paged : page ≡ reverse pending =
                  network.page (skipped ++ read) pending signature_page_limit page parts asked
                  ∙ take_all signature_page_limit (reverse pending)
                      (omega (arith, length-reverse pending)) in
                let (read', pending', watched, all_read) =
                  read_page-Watched hexlify base64_bytes logs_of recipient skipped history w read
                    pending h answers.serves answers.connection page paged network.logs in
                (read', pending', rw (e, poll_intent_submitted) watched, λ served. all_read)
          ]

    grown-Watched :
        (history grown : List Signature) (w : Watcher) (read pending : List Signature)
        → Watched hexlify base64_bytes logs_of recipient skipped history w read pending
        → Watched hexlify base64_bytes logs_of recipient skipped
            (history ++ grown)
            w
            read
            (pending ++ grown)
    grown-Watched history grown w read pending h = record {
      split =
          ap (λ xs. xs ++ grown) h.split
          ∙ append_assoc skipped (read ++ pending) grown
          ∙ ap (◌++◌ skipped) (append_assoc read pending grown);
      behind = h.behind;
      reported = h.reported;
    }

    turn-Watched :
        (t : Turn) (history : List Signature) (w : Watcher)
        → IsOf logs_of (history ++ t.grown) t.answers.connection
        → ((older newer : List Signature)
            → history ++ t.grown ≡ older ++ newer
            → last_signature older ≡ w.cursor
            → length newer ≤ signature_page_limit)
        → IsWatched hexlify base64_bytes logs_of recipient skipped history w
        → (read' : List Signature) × (pending' : List Signature) × Watched hexlify base64_bytes
            logs_of recipient skipped
            (history ++ t.grown)
            (poll_once hexlify base64_bytes recipient t.answers w)
            read'
            pending'
          × ((t.answers.connection.signatures w.cursor signature_page_limit ≢ none)
              → ((signature : String) → t.answers.connection.transaction signature ≢ none)
              → pending' ≡ [])
    turn-Watched t history w network fits (read, pending, h) =
        let g = grown-Watched history t.grown w read pending h in
        let room : length (pending ++ t.grown) ≤ signature_page_limit =
          fits (skipped ++ read) (pending ++ t.grown)
            (g.split ∙ sym (append_assoc skipped read (pending ++ t.grown))) h.behind in
        poll_once-Watched (history ++ t.grown) w read (pending ++ t.grown) g t.answers network room

    -- The last poll is answered in full, the others as they may be.
    run-Watched :
        (turns : List Turn) (last : Turn) (history : List Signature) (w : Watcher)
        → last.answers.connection.signatures
            (run hexlify base64_bytes recipient (answers_of turns) w).cursor
            signature_page_limit
          ≢ none
        → ((signature : String) → last.answers.connection.transaction signature ≢ none)
        → Honest logs_of (turns ++ (last ∷ [])) history
        → Fits hexlify base64_bytes recipient (turns ++ (last ∷ [])) history w
        → IsWatched hexlify base64_bytes logs_of recipient skipped history w
        → (read : List Signature) × Watched hexlify base64_bytes logs_of recipient skipped
            (history_after (turns ++ (last ∷ [])) history)
            (run hexlify base64_bytes recipient (answers_of (turns ++ (last ∷ []))) w)
            read
            []
    unfolding run
    run-Watched [] last history w paged served (network, _) (fit, _) h =
        let (read', pending', watched, all_read) = turn-Watched last history w network fit h in
        (
          read',
          subst
              (Watched hexlify base64_bytes logs_of recipient skipped (history ++ last.grown)
                (poll_once hexlify base64_bytes recipient last.answers w) read')
              (all_read paged served) watched,
        )
    run-Watched (t ∷ turns) last history w paged served (network, networks) (fit, fits) h =
        let (read', pending', watched, _) = turn-Watched t history w network fit h in
        run-Watched turns last (history ++ t.grown)
          (poll_once hexlify base64_bytes recipient t.answers w) paged served networks fits
          (read', pending', watched)

    start-IsWatched :
        (w : Watcher)
        → last_signature skipped ≡ w.cursor
        → w.feed.tried ≡ []
        → IsWatched hexlify base64_bytes logs_of recipient skipped skipped w
    unfolding events_of
    start-IsWatched w behind fresh = (
      [],
      [],
      record {
        split = sym (append-nil skipped);
        behind = ap last_signature (append-nil skipped) ∙ behind;
        reported = fresh;
      },
    )

-- Whatever failed in the polls before: if the watcher started behind the transactions of then, no
-- poll had more than a page of transactions behind the cursor, and answers are those of the network,
-- then after a poll in which no read fails, the reports are those of the events of all transactions
-- since the start that did not fail, each once and oldest first, and the cursor is at the newest.
pub run-Reports :
    (hexlify : List ℕ → String) (base64_bytes : String → List ℕ) (logs_of : String → List String)
    (recipient : String) (skipped : List Signature) (w : Watcher) (turns : List Turn) (last : Turn)
    → last_signature skipped ≡ w.cursor
    → w.feed.tried ≡ []
    → Honest logs_of (turns ++ (last ∷ [])) skipped
    → Fits hexlify base64_bytes recipient (turns ++ (last ∷ [])) skipped w
    → last.answers.connection.signatures
        (run hexlify base64_bytes recipient (answers_of turns) w).cursor
        signature_page_limit
      ≢ none
    → ((signature : String) → last.answers.connection.transaction signature ≢ none)
    → let polls = turns ++ (last ∷ []) in
      let after = run hexlify base64_bytes recipient (answers_of polls) w in
      (since : List Signature) × (history_after polls skipped ≡ skipped ++ since)
      × (after.feed.tried
          ≡ map (submitted_call recipient) (events_of hexlify base64_bytes logs_of since))
      × (after.cursor ≡ last_signature (history_after polls skipped))
run-Reports hexlify base64_bytes logs_of recipient skipped w turns last behind fresh networks fits
      page_served served =
    let (read, watched) =
      run-Watched hexlify base64_bytes logs_of recipient skipped turns last skipped w page_served
        served networks fits
        (start-IsWatched hexlify base64_bytes logs_of recipient skipped w behind fresh) in
    let whole : history_after (turns ++ (last ∷ [])) skipped ≡ skipped ++ read =
      watched.split ∙ ap (◌++◌ skipped) (append-nil read) in
    (read, whole, watched.reported, sym watched.behind ∙ ap last_signature (sym whole))
