-- ===== src/Examples/Calls.antt =====
-- The theorem on internal/bootstrap at a table of one row.
use logs_tracker.Prelude.{ℕ, String, ◌≡◌, refl, none, [], ◌∷◌, Option}
use logs_tracker.Prelude.Dict.{get, put}
use logs_tracker.Errors.{GoError, ok}
use logs_tracker.Source.{text}
use logs_tracker.Merkle.{hash_leaf, build_tree, build_levels}
use logs_tracker.Merkle.Payload.{normalize, compute_record_leaf_hash}
use logs_tracker.Config.{get_table_config, set_table_config}
use logs_tracker.Store.{MemoryStore, new_memory_store, leaf_hashes, create_batch}
use logs_tracker.Snapshot.{
  sealed_value, process_value, process_row, is_listed, is_null, image, has_before, has_after,
  extract_primary_key, build_record,
}
use logs_tracker.Signing.{encrypt}
use logs_tracker.Batch.{add_record, flush, close_current_batch, set_bootstrap_mode}
use logs_tracker.Batch.InMemory.{HasRecord, in_memory-IsDurable}
use logs_tracker.Bootstrap.{
  Runner, Answers, RowDraw, RunDraw, stop_run, batched, take_row, scan_row, take_rows, completed,
  flushed, rows_taken, with_columns, in_progress, configured, after_map, plain, bootstrap_table,
}
use logs_tracker.Bootstrap.Complete.{bootstrap_table-Has}
use logs_tracker.Examples.Batches
use logs_tracker.Examples.Flow.{codec, order_config}

-- A database without a state.
abbrev pub updated : String → String → ℕ → ℕ × Option GoError
updated table status db = (db, none)

abbrev pub run_draw : RunDraw
run_draw = record { alert_id = "a1"; alert_at = 1; error_text = λ e. ""; flush_at = Batches.moment }

abbrev pub row_draws : ℕ → RowDraw
row_draws i = record { record_id = "r1"; now = 1; moment = Batches.moment }

abbrev pub answers : Answers
answers = record {
  begin = none;
  query = none;
  columns = ok ("id" ∷ "address" ∷ []);
  rows = ok (text "o1" ∷ text "Main St 1" ∷ []) ∷ [];
}

abbrev runner : Runner MemoryStore ℕ
runner = record {
  config_mgr = record { tables = ("orders", order_config) ∷ [] };
  dispatcher = none;
  batcher = Batches.batcher [];
  services = new_memory_store;
  db = 0;
}

no_error :
    (bootstrap_table Batches.runtime codec Batches.services updated run_draw "orders" row_draws
      answers runner).1
    ≡ none
unfolding bootstrap_table configured in_progress with_columns rows_taken flushed completed batched
    take_rows scan_row take_row stop_run after_map plain get_table_config get put build_record image
    has_before has_after extract_primary_key process_row process_value sealed_value is_listed
    is_null encrypt add_record flush close_current_batch set_bootstrap_mode leaf_hashes
    compute_record_leaf_hash normalize hash_leaf build_tree build_levels create_batch
    set_table_config
no_error = refl

bootstrap_table-Has_example :
    HasRecord "r1"
      (bootstrap_table Batches.runtime codec Batches.services updated run_draw "orders" row_draws
        answers runner).0.services.records
bootstrap_table-Has_example =
    bootstrap_table-Has Batches.runtime codec Batches.services updated run_draw "orders"
      (λ id s. HasRecord id s.records)
      (in_memory-IsDurable Batches.sign_with Batches.marshal Batches.write) row_draws 0
      (ok (text "o1" ∷ text "Main St 1" ∷ [])) answers refl runner no_error
