-- ===== src/Sui/Tests.antt =====
-- A chain of two checkpoints, with an event in each.
use bosphor.Base.{
  ℕ, ◌≡◌, refl, none, some, List, [], ◌∷◌, ◌++◌, true, false, ltb, if◌then◌else◌, str_eq, arith,
}
use bosphor.Base.Result.{ok, err}
use bosphor.Sui.Event.{StructFields, RawEvent, Transaction, Decoders, read_event}
use bosphor.Sui.Checkpoint.{State, Fetched, Pass, poll, run_checkpoint_poll}
use bosphor.Sui.Checkpoint.Delivered.{window}
use bosphor.Sui.Checkpoint.Caught.{Caught, run_checkpoint_poll-GoesOn}
use bosphor.Sui.Checkpoint.CatchUp.{IsSmooth, AllRead, poll-CatchesUp}

abbrev decoders : Decoders
decoders = record {
  base64_bytes = λ text. 10 ∷ 255 ∷ [];
  big_int = λ text.
      if str_eq text "7"
      then ok 7
      else if str_eq text "0"
      then ok 0
      else err "SyntaxError: Cannot convert to a BigInt";
}

abbrev fields : StructFields
fields = record {
  intent_id = some "Cv8=";
  committed_blob_id = some "9";
  size = some 5;
  encoding_type = some 1;
  storage_epochs = some 3;
  deadline = some "7";
  src_eid = some 40161;
  nonce = none;
}

abbrev raw : RawEvent
raw = record { event_type = "0xp::lz_receiver::IntentReceived"; fields = some fields }

abbrev chain : ℕ → List Transaction
chain seq =
    record { digest = some "d"; events = some (raw ∷ record raw { event_type = "x" } ∷ []) } ∷ []

id_in_hex :
    read_event decoders "0xp" "d" raw
    ≡ ok (
        some (record {
          intent_id = "0x0aff";
          delivery_digest = "d";
          committed_blob_id = "9";
          size = 5;
          encoding_type = 1;
          storage_epochs = some 3;
          deadline = 7;
          src_eid = 40161;
          nonce = 0;
        }))
unfolding read_event
id_in_hex = refl

abbrev smooth : Pass
smooth = record {
  current = some 12;
  fetch = λ seq. Fetched.served;
  takes = λ n. true;
  stopped_at = λ seq. false;
  is_stopped = false;
}

-- The second event is refused.
abbrev rough : Pass
rough = record smooth { takes = λ n. ltb n 1 }

abbrev state : State
state = record { cursor = some 10; backoff_ms = 1000; delivered = []; slept = [] }

smooth-IsSmooth : IsSmooth 12 smooth
smooth-IsSmooth = record {
  latest_read = refl;
  served = λ seq. refl;
  takes = λ n. refl;
  goes_on = λ seq. refl;
}

are_read : AllRead decoders "0xp" (chain 11)
unfolding read_event
are_read = ((((some _, refl), ((none, refl), tt))), tt)

poll-CatchesUp_example :
    ((poll decoders "0xp" chain smooth state).cursor ≡ some 12)
    × ((poll decoders "0xp" chain smooth state).delivered ≡ [] ++ window decoders "0xp" chain 11 2)
poll-CatchesUp_example =
    poll-CatchesUp decoders "0xp" chain smooth 12 10 state (λ seq l h. are_read) smooth-IsSmooth
      refl (omega arith)

run_checkpoint_poll-GoesOn_example :
    (t : State) × (run_checkpoint_poll decoders "0xp" chain none (rough ∷ smooth ∷ []) state ≡ ok t)
    × Caught decoders "0xp" chain 10 [] t
run_checkpoint_poll-GoesOn_example =
    run_checkpoint_poll-GoesOn decoders "0xp" chain none (rough ∷ smooth ∷ []) state
      ((λ seq e. cc e), ((λ seq e. cc e), tt))
