-- ===== src/Solana/Watcher/Page.antt =====
-- What one page of signatures brings to the watcher.
use mathlib.Core.List.{reverse, reverse-cons, reverse-reverse, append-nil, append_assoc, map-append}
use bosphor.Base.{
  ℕ, String, Option, none, some, List, [], ◌∷◌, ◌++◌, map, ◌≡◌, ◌≢◌, refl, sym, ap, ◌∙◌, inl, inr,
  Option-cases, or_else,
}
use bosphor.Lifecycle.Track.{tried-track_all}
use bosphor.Solana.Poll.{Signature, SolanaSubmittedEvent, Connection, read_signatures, read_page}
use bosphor.Solana.Watcher.{Watcher, submitted_call, take_poll}
use bosphor.Solana.Watcher.History.{
  last_signature, last_signature-append, events_of, events_of-append, read_signatures-events_of,
  read_signatures-served,
}

module _ (hexlify : List ℕ → String) (base64_bytes : String → List ℕ)
    (logs_of : String → List String) where
  module _ (recipient : String) (skipped : List Signature) where
    -- Of a history that starts with what was there before the watcher, the cursor stands behind `read`.
    pub record Watched (history : List Signature) (w : Watcher) (read pending : List Signature)
        : Type 0 where
      pub split : history ≡ skipped ++ (read ++ pending)
      pub behind : last_signature (skipped ++ read) ≡ w.cursor
      pub reported :
          w.feed.tried
          ≡ map (submitted_call recipient) (events_of hexlify base64_bytes logs_of read)

    abbrev pub IsWatched : List Signature → Watcher → Type 0
    IsWatched history w =
        (read : List Signature) × (pending : List Signature) × Watched history w read pending

    module _ (history : List Signature) (w : Watcher) (read pending : List Signature)
        (h : Watched history w read pending) where
      pub take_none-Watched :
          (serves : ℕ → Option ℕ)
          → Watched history
              (take_poll recipient serves (record { events = []; newest_signature = w.cursor }) w)
              read
              pending
      unfolding take_poll
      take_none-Watched serves = record {
        split = h.split;
        behind = h.behind;
        reported = h.reported;
      }

      -- The cursor moves behind all that was pending, of which the last is the newest.
      take_all-Watched :
          (serves : ℕ → Option ℕ) (newest : Signature) (sigs : List Signature)
          (events : List SolanaSubmittedEvent)
          → pending ≡ reverse (newest ∷ sigs)
          → events ≡ events_of hexlify base64_bytes logs_of pending
          → Watched history
              (take_poll recipient serves
                (record { events = events; newest_signature = some newest.signature })
                w)
              (read ++ pending)
              []
      unfolding take_poll
      take_all-Watched serves newest sigs events paged read_all = record {
        split = h.split ∙ ap (◌++◌ skipped) (sym (append-nil (read ++ pending)));
        behind =
            ap (λ xs. last_signature (skipped ++ (read ++ xs))) (paged ∙ reverse-cons newest sigs)
            ∙ ap (λ xs. last_signature (skipped ++ xs))
                (sym (append_assoc read (reverse sigs) (newest ∷ [])))
            ∙ ap last_signature (sym (append_assoc skipped (read ++ reverse sigs) (newest ∷ [])))
            ∙ last_signature-append (skipped ++ (read ++ reverse sigs)) newest;
        reported =
            tried-track_all serves (map (submitted_call recipient) events) w.feed
            ∙ ap (λ xs. xs ++ map (submitted_call recipient) events) h.reported
            ∙ ap
                (λ xs.
                  map (submitted_call recipient) (events_of hexlify base64_bytes logs_of read)
                  ++ map (submitted_call recipient) xs)
                read_all
            ∙ sym (
                map-append (submitted_call recipient) (events_of hexlify base64_bytes logs_of read)
                  (events_of hexlify base64_bytes logs_of pending))
            ∙ ap (map (submitted_call recipient))
                (sym (events_of-append hexlify base64_bytes logs_of read pending));
      }

      pub read_page-Watched :
          (serves : ℕ → Option ℕ) (connection : Connection) (page : List Signature)
          → page ≡ reverse pending
          → ((signature : String) (logs : Option (List String))
              → connection.transaction signature ≡ some logs
              → or_else logs [] ≡ logs_of signature)
          → (read' : List Signature) × (pending' : List Signature) × Watched history
              (take_poll recipient serves
                (read_page hexlify base64_bytes connection w.cursor page)
                w)
              read'
              pending'
            × (((signature : String) → connection.transaction signature ≢ none) → pending' ≡ [])
      unfolding read_page
      read_page-Watched serves connection [] paged logs = (
        read,
        pending,
        take_none-Watched serves,
        λ served. sym (reverse-reverse pending) ∙ ap reverse (sym paged),
      )
      read_page-Watched serves connection (newest ∷ sigs) paged logs =
          let in_order : pending ≡ reverse (newest ∷ sigs) =
            sym (reverse-reverse pending) ∙ ap reverse (sym paged) in
          let came = read_signatures hexlify base64_bytes connection (reverse (newest ∷ sigs)) in
          elim (Option-cases came) [
            | inl failed ↦ (
              read,
              pending,
              rw (failed, read_page) (take_none-Watched serves),
              λ served. absurd (
                  read_signatures-served hexlify base64_bytes logs_of connection
                    (reverse (newest ∷ sigs)) served failed),
            )
            | inr (events, e) ↦ (
              read ++ pending,
              [],
              rw (e, read_page)
                  (take_all-Watched serves newest sigs events in_order (
                    read_signatures-events_of hexlify base64_bytes logs_of connection
                      (reverse (newest ∷ sigs)) events logs e
                    ∙ ap (events_of hexlify base64_bytes logs_of) (sym in_order))),
              λ served. refl,
            )
          ]
