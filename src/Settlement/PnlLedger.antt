-- ===== src/Settlement/PnlLedger.antt =====
-- `PnlLedger` of relayer/src/settlement/pnl-ledger.ts and `SettlementReconciler` of
-- settlement-reconciler.service.ts, without its log and metrics. The map is the list of its values in
-- the order of insertion.
use bosphor.Base.{
  ℕ, String, Bool, true, false, not, ◌||◌, ◌&&◌, ◌+◌, Option, none, some, List, [], ◌∷◌, ◌++◌,
  if◌then◌else◌, str_eq, length,
}
use bosphor.Base.Result.{Result, ok, err}
use bosphor.Settlement.Dollars.{Dollars}

pub data PnlStatus : Type 0 where
  completed skipped : PnlStatus

abbrev pub is_completed : PnlStatus → Bool
is_completed PnlStatus.completed = true
is_completed PnlStatus.skipped = false

module _ {W : Type 0} (usd : Dollars W) where
  pub record PnlEntry : Type 0 where
    pub intent_id : String
    pub status : PnlStatus
    pub collected_usd : W
    pub spent_usd : W
    pub net_usd : W
    pub timestamp_ms : ℕ

  pub record PnlSummary : Type 0 where
    pub count : ℕ
    pub completed : ℕ
    pub skipped : ℕ
    pub total_collected_usd : W
    pub total_spent_usd : W
    pub total_net_usd : W
    pub negative_count : ℕ

  -- `entries.get(intentId)`.
  unfoldable pub get_entry : String → List PnlEntry → Option PnlEntry
  get_entry id [] = none
  get_entry id (e ∷ entries) = if str_eq e.intent_id id then some e else get_entry id entries

  -- What `record` does once the amounts are finite: the first entry of an intent stays.
  unfoldable pub keep_first : PnlEntry → Option PnlEntry → List PnlEntry → PnlEntry × List PnlEntry
  keep_first entry (some existing) entries = (existing, entries)
  keep_first entry none entries =
      let stored = record entry { net_usd = usd.sub entry.collected_usd entry.spent_usd } in
      (stored, entries ++ (stored ∷ []))

  -- `record`; what is thrown is the intent's id.
  unfoldable pub record_entry : PnlEntry → List PnlEntry → Result String (PnlEntry × List PnlEntry)
  unfolding keep_first get_entry
  record_entry entry entries =
      if not (usd.is_finite entry.collected_usd) || not (usd.is_finite entry.spent_usd)
      then err entry.intent_id
      else ok (keep_first entry (get_entry entry.intent_id entries) entries)

  -- One turn of the loop of `summary`, on what the loop has counted so far.
  abbrev pub count_entry : PnlEntry → PnlSummary → PnlSummary
  count_entry e t = record t {
    completed = t.completed + (if is_completed e.status then 1 else 0);
    skipped = t.skipped + (if is_completed e.status then 0 else 1);
    total_collected_usd = usd.add t.total_collected_usd e.collected_usd;
    total_spent_usd = usd.add t.total_spent_usd e.spent_usd;
    negative_count =
        t.negative_count + (if is_completed e.status && usd.lt e.net_usd usd.nought then 1 else 0);
  }

  unfoldable pub count_entries : List PnlEntry → PnlSummary → PnlSummary
  count_entries [] t = t
  count_entries (e ∷ entries) t = count_entries entries (count_entry e t)

  unfoldable pub summary : List PnlEntry → PnlSummary
  unfolding count_entries
  summary entries =
      let t = count_entries entries (record {
        count = length entries;
        completed = 0;
        skipped = 0;
        total_collected_usd = usd.nought;
        total_spent_usd = usd.nought;
        total_net_usd = usd.nought;
        negative_count = 0;
      }) in
      record t { total_net_usd = usd.sub t.total_collected_usd t.total_spent_usd }

  -- The entry of a completion, before its net is computed, and that of a skip.
  abbrev pub completion_entry : ℕ → String → W → W → PnlEntry
  completion_entry now id collected_usd spent_usd = record {
    intent_id = id;
    status = PnlStatus.completed;
    collected_usd = collected_usd;
    spent_usd = spent_usd;
    net_usd = usd.nought;
    timestamp_ms = now;
  }

  abbrev pub skip_entry : ℕ → String → PnlEntry
  skip_entry now id = record {
    intent_id = id;
    status = PnlStatus.skipped;
    collected_usd = usd.nought;
    spent_usd = usd.nought;
    net_usd = usd.nought;
    timestamp_ms = now;
  }

  unfoldable pub record_completion :
      ℕ → String → W → W → List PnlEntry → Result String (PnlEntry × List PnlEntry)
  unfolding record_entry
  record_completion now id collected_usd spent_usd entries =
      record_entry (completion_entry now id collected_usd spent_usd) entries

  unfoldable pub record_skip : ℕ → String → List PnlEntry → Result String (PnlEntry × List PnlEntry)
  unfolding record_entry
  record_skip now id entries = record_entry (skip_entry now id) entries
