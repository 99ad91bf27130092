-- ===== src/Processor/Run/Once.antt =====
-- An intent's blob is uploaded again only after an upload that the queue refused to record (
-- relayer/src/intent/intent.processor.ts): the attempts of an
-- intent, mixed with what the other parts of the relayer do to the queue.
use bosphor.Base.{String, ◌≡◌, Option, some}
use bosphor.Base.Result.{Result}
use bosphor.Staged.Types.{Row, StagedIntentRow, map_row}
use bosphor.Staged.Table.{Table, find}
use bosphor.Staged.Settled.{Step}
use bosphor.Lifecycle.{IntentCommitment}
use bosphor.Processor.World.{Env, Config, World}
use bosphor.Processor.Triple.{Triple}
use bosphor.Processor.Outcome.Rows.{IsEnded, Is, IsThere, any_row}
use bosphor.Processor.Run.{Race, run_store}

module _ {U : Type 0} (config : Config) (env : Env U) (row : StagedIntentRow) where
  module _ (sender : String) (commitment : Option IntentCommitment) where
    -- Ends with a tally, whatever else is known.
    ended : (w : World U) → Is row IsEnded w → Is row (IsThere row) w
    ended w k = any_row row IsEnded w k

-- The life of one intent: an attempt on a fresh read of its row, with any answers of the services,
-- or a step of the queue, in any order. One attempt of an intent runs at a time.
pub data Life {U : Type 0} (id : String) (w : World U) : World U → Type 1 where
  start : Life id w w
  attempt :
      {v : World U} (config : Config) (env : Env U) (sender : String)
      (commitment : Option IntentCommitment) (race : Race) (r : Row)
      → Life id w v
      → find id v.table ≡ some r
      → Life id w (run_store config env (map_row r) sender commitment race v).1
  queue :
      {v : World U} {u : Table} → Life id w v → Step v.table u → Life id w (record v { table = u })
