-- ===== src/Postgres/Changes.antt =====
-- PostgresStore of internal/store/store.go: InsertWORMIndex, UpdateBatchStatus and
-- DeleteRecordsByBatchID, over the tables of Postgres.
use logs_tracker.Prelude.{
  ℕ, zero, suc, String, append, Option, none, some, List, [], ◌∷◌, map, str_eq, if◌then◌else◌,
}
use logs_tracker.Errors.{GoError, not_found, failure, wrapped, Result, ok, err}
use logs_tracker.Store.{Batch, WormIndexEntry, with_status}
use logs_tracker.Postgres.{RecordRow, Tables, Columns, unless_failed, find_batch}

-- Inserting an entry of a batch that has one replaces it.
unfoldable pub upsert : WormIndexEntry → List WormIndexEntry → List WormIndexEntry
upsert e [] = e ∷ []
upsert e (d ∷ rows) =
    let later = upsert e rows in if str_eq d.batch_id e.batch_id then e ∷ rows else d ∷ later

module _ (columns : Columns) where
  unfoldable pub stored_entry : WormIndexEntry → WormIndexEntry
  stored_entry e = record e {
    tiered_at = columns.timestamp e.tiered_at;
    purged_from_postgres_at = elim e.purged_from_postgres_at [
      | none ↦ none
      | some at ↦ some (columns.timestamp at)
    ];
  }

  unfoldable pub insert_entry : WormIndexEntry → Tables → Result Tables
  insert_entry e t = elim (find_batch e.batch_id t.audit_batches) [
    | none ↦ err (failure "violates foreign key constraint")
    | some b ↦
        if columns.fit_entry e
        then ok (record t { audit_worm_index = upsert (stored_entry e) t.audit_worm_index })
        else err (failure "invalid value")
  ]

  unfoldable pub insert_worm_index :
      Option GoError → WormIndexEntry → Tables → Tables × Option GoError
  insert_worm_index fault e t = elim (unless_failed fault (insert_entry e t)) [
    | ok t' ↦ (t', none)
    | err x ↦ (t, some (wrapped "failed to insert audit_worm_index" x))
  ]

-- COALESCE keeps the old key where the new one is nil.
unfoldable pub update_row : String → String → Option String → Batch → Batch
update_row id status key b = if str_eq b.id id then with_status status key b else b

unfoldable pub rows_affected : String → List Batch → ℕ
rows_affected id [] = 0
rows_affected id (b ∷ rows) =
    let later = rows_affected id rows in if str_eq b.id id then suc later else later

-- The tables after an update, and an error if it found no row.
unfoldable pub update_done : Tables → List Batch → ℕ → Tables × Option GoError
update_done t rows zero = (t, some not_found)
update_done t rows (suc n) = (record t { audit_batches = rows }, none)

unfoldable pub update_batch_status :
    Option GoError → String → String → Option String → Tables → Tables × Option GoError
update_batch_status (some e) id status key t = (t, some (wrapped "failed to update batch status" e))
update_batch_status none id status key t =
    update_done t (map (update_row id status key) t.audit_batches)
      (rows_affected id t.audit_batches)

unfoldable pub delete_rows : String → List RecordRow → List RecordRow
delete_rows batch_id [] = []
delete_rows batch_id (r ∷ rows) =
    let later = delete_rows batch_id rows in if str_eq r.batch_id batch_id then later else r ∷ later

unfoldable pub delete_records_by_batch_id :
    Option GoError → String → Tables → Tables × Option GoError
delete_records_by_batch_id (some e) batch_id t =
    (t, some (wrapped (append "failed to purge records for batch " batch_id) e))
delete_records_by_batch_id none batch_id t =
    (record t { audit_records = delete_rows batch_id t.audit_records }, none)
