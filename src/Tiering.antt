-- ===== src/Tiering.antt =====
-- internal/tiering/tiering.go: batches older than the retention window are archived, and their
-- records purged from the store. What it calls is a record of functions over a state of theirs.
pub mod Purge
pub mod InMemory
pub mod Complete
use logs_tracker.Prelude.{
  ℕ, suc, ◌+◌, ◌-◌, String, append, ◌==◌, if◌then◌else◌, Option, none, some, List, [], ◌∷◌, ◌++◌,
  length,
}
use logs_tracker.Errors.{GoError, failure, wrapped, Result, ok, err}
use logs_tracker.Merkle.{Bytes}
use logs_tracker.Store.{Batch, Record, WormIndexEntry}

pub record TierResult : Type 0 where
  pub batches_tiered : ℕ
  pub records_purged : ℕ
  pub errors : List GoError

-- The store, the archive, the dispatcher, Go's `Error` and `json.Marshal` of a record.
pub record Deps (S : Type 0) : Type 0 where
  pub batches_for_tiering : ℕ → S → Result (List Batch)
  pub records_by_batch_id : String → S → Result (List Record)
  pub put_archive : String → Bytes → S → S × Option GoError
  pub insert_worm_index : WormIndexEntry → S → S × Option GoError
  pub delete_records : String → S → S × Option GoError
  pub update_batch_status : String → String → Option String → S → S × Option GoError
  pub trigger : String → String → String → String → String → String → S → S
  pub error_text : GoError → String
  pub marshal_record : Record → Option Bytes

-- A window that is not positive becomes 90 days.
unfoldable pub retention_window : ℕ → ℕ
retention_window w = if w == 0 then 7_776_000_000_000_000 else w

abbrev pub archive_key : String → String
archive_key id = append "archives/" (append id ".jsonl")

abbrev pub worm_entry : String → ℕ → WormIndexEntry
worm_entry id now = record {
  batch_id = id;
  worm_object_key = archive_key id;
  tiered_at = now;
  purged_from_postgres_at = some now;
}

module _ {S : Type 0} (deps : Deps S) where
  abbrev pub Progress : Type 0
  Progress = TierResult × S

  unfoldable pub report_failure : String → GoError → S → S
  report_failure id e s =
      deps.trigger "tiering_job_failure" "critical" "audit_batches" id ""
        (append "Retention tiering job failed for batch "
          (append id (append ": " (deps.error_text e))))
        s

  -- An error is noted and reported.
  unfoldable pub failed : String → GoError → Progress → Progress
  failed id e (result, s) =
      (record result { errors = result.errors ++ e ∷ [] }, report_failure id e s)

  -- One line for each record; one that does not marshal is left out and reported.
  unfoldable pub serialize : String → List Record → Progress → Bytes × Progress
  serialize id [] p = ([], p)
  serialize id (r ∷ rs) p = elim (deps.marshal_record r) [
    | none ↦ serialize id rs (failed id (wrapped "failed to marshal record" (failure r.id)) p)
    | some line ↦ let (rest, p') = serialize id rs p in (line ++ 10 ∷ rest, p')
  ]

  unfoldable pub status_done : String → ℕ → TierResult → S × Option GoError → Progress
  status_done id n result (s, some e) =
      failed id (wrapped "failed to update batch status" e) (result, s)
  status_done id n result (s, none) = (
    record result {
      batches_tiered = suc result.batches_tiered;
      records_purged = result.records_purged + n;
    },
    s,
  )

  unfoldable pub purge_done : String → ℕ → TierResult → S × Option GoError → Progress
  purge_done id n result (s, some e) = failed id (wrapped "failed to purge records" e) (result, s)
  purge_done id n result (s, none) =
      status_done id n result (deps.update_batch_status id "archived" (some (archive_key id)) s)

  unfoldable pub index_done : String → ℕ → TierResult → S × Option GoError → Progress
  index_done id n result (s, some e) =
      failed id (wrapped "failed to insert worm index" e) (result, s)
  index_done id n result (s, none) = purge_done id n result (deps.delete_records id s)

  unfoldable pub archive_done : String → ℕ → ℕ → TierResult → S × Option GoError → Progress
  archive_done id n now result (s, some e) =
      failed id (wrapped "failed to put archive to WORM" e) (result, s)
  archive_done id n now result (s, none) =
      index_done id n result (deps.insert_worm_index (worm_entry id now) s)

  unfoldable pub with_records : String → ℕ → Result (List Record) → Progress → Progress
  with_records id now (err e) p = failed id (wrapped "failed to get records" e) p
  with_records id now (ok rs) p =
      let (content, (result, s)) = serialize id rs p in
      archive_done id (length rs) now result (deps.put_archive id content s)

  -- One round of the loop; `clock` is what it reads of the clock for each batch.
  unfoldable pub tier_batch : (String → ℕ) → Batch → Progress → Progress
  tier_batch clock b p = with_records b.id (clock b.id) (deps.records_by_batch_id b.id p.1) p

  unfoldable pub tier_all : (String → ℕ) → List Batch → Progress → Progress
  tier_all clock [] p = p
  tier_all clock (b ∷ bs) p = tier_all clock bs (tier_batch clock b p)

  unfoldable pub run_once : ℕ → ℕ → (String → ℕ) → S → Result TierResult × S
  run_once now window clock s = elim (deps.batches_for_tiering (now - window) s) [
    | err e ↦ (err (wrapped "failed to query batches for tiering" e), s)
    | ok bs ↦
        let (result, s') =
          tier_all clock bs (record { batches_tiered = 0; records_purged = 0; errors = [] }, s) in
        (ok result, s')
  ]
