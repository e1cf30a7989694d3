-- ===== src/Examples/Daemon.antt =====
-- The theorems on cmd/daemon/main.go at one transaction, and at one batch.
use logs_tracker.Prelude.{ℕ, String, ◌≡◌, refl, true, none, some, [], ◌∷◌, arith}
use logs_tracker.Prelude.Dict.{get, put}
use logs_tracker.Errors.{ok}
use logs_tracker.Merkle.{Bytes, build_tree, build_levels}
use logs_tracker.Merkle.Payload.{compute_record_leaf_hash, normalize}
use logs_tracker.Config.{load_from_db, set_table_config, get_table_config, get_all_configs}
use logs_tracker.Signing.{encrypt, generate_and_save_keyfile}
use logs_tracker.Snapshot.{
  is_listed, is_null, sealed_value, process_value, process_row, image, has_before, has_after,
  extract_primary_key, build_record,
}
use logs_tracker.Store.{MemoryStore, new_memory_store, leaf_hashes}
use logs_tracker.Batch.{Batcher, new_batcher, add_record, close, close_current_batch, batch_row}
use logs_tracker.Batch.InMemory.{HasRecord, in_memory-IsDurable}
use logs_tracker.Bootstrap.{bootstrap_position}
use logs_tracker.Pipeline.{
  State, update_configs, audit_config, is_internal, audit, audit_all, ticked, take_record,
  record_added, process_transaction, run,
}
use logs_tracker.Pipeline.Stored.{state_after}
use logs_tracker.Postgres.{
  find_row, stored_batch, stored_record, image_column, jsonb_column, insert_batch, insert_record,
  insert_records, commit_transaction, commit_records, insert_prepared, insert_rest, insert_begun,
  create_batch,
}
use logs_tracker.Postgres.Queries
use logs_tracker.Postgres.Session.{Session, in_postgres}
use logs_tracker.Commands.{Files, or_default, load_key, unlock, new_key, saved}
use logs_tracker.Commands.Daemon.{
  Flags, World, needs_bootstrap, stopped, resumed, key_or_new, start_key, bootstrap_all, assembled,
  bootstrapped, ended, piped, with_mysql, with_checkpoint, with_postgres, with_archive, with_key,
  daemon,
}
use logs_tracker.Commands.Daemon.Audited.{daemon-Has}
use logs_tracker.Commands.Daemon.Restart.{daemon-resumes, daemon-forgets}
use logs_tracker.Examples.Batches
use logs_tracker.Examples.Calls
use logs_tracker.Examples.Flow
use logs_tracker.Examples.Keys.{toy, manager, random}
use logs_tracker.Examples.Tables.{
  columns, no_faults, moment, one, session, write_all, closes, exact_row, stored, runtime, compact,
  spaced,
}

abbrev flags : Flags
flags = record {
  keyfile = "keys.enc";
  passphrase = "secret";
  webhook_url = "";
  batch_config = record { max_interval = 60; max_events = 3 };
}

abbrev in_memory_world : World MemoryStore ℕ
in_memory_world = record {
  runtime = Batches.runtime;
  crypto = toy;
  random = random;
  keyfiles = [];
  codec_of = λ m. Flow.codec;
  services_of = λ m. Batches.services;
  archive_error = none;
  postgres_error = none;
  mysql_error = none;
  latest_checkpoint = λ s. ok ("", 0);
  unmarshal_columns = λ s. "address" ∷ [];
  config_rows = ok (ok (record { config = Flow.order_config; columns_text = "address" }) ∷ []);
  batch_id = "b1";
  now = 1;
  update_status = Calls.updated;
  run_draw = λ table. Calls.run_draw;
  row_draws = λ table. Calls.row_draws;
  answers = λ table. Calls.answers;
  stream = λ p. ok ((Flow.draws, Flow.order_transaction) ∷ []);
  end = Batches.moment;
}

abbrev files : Files
files = ("keys.enc", 8 ∷ []) ∷ []

made : start_key in_memory_world flags ≡ ok (files, manager)
unfolding start_key key_or_new or_default load_key unlock get new_key saved
    generate_and_save_keyfile put
made = refl

abbrev assembled_state : State MemoryStore
assembled_state = bootstrapped in_memory_world manager flags new_memory_store 0

abbrev final : State MemoryStore
final =
    (run Batches.runtime Flow.codec Batches.services (λ s. "address" ∷ []) Batches.moment
      ((Flow.draws, Flow.order_transaction) ∷ []) assembled_state).0

audited :
    audit_config Flow.order_insert (
      update_configs
        (λ s. "address" ∷ [])
        (Flow.order_insert ∷ [])
        (state_after Batches.runtime Flow.codec Batches.services
          (λ s. "address" ∷ [])
          []
          assembled_state).config_mgr)
    ≡ some Flow.order_config
unfolding audit_config update_configs is_internal get_table_config get state_after bootstrapped
    bootstrap_all assembled needs_bootstrap load_from_db set_table_config put get_all_configs
audited = refl

taken :
    (process_transaction Batches.runtime Flow.codec Batches.services
      (λ s. "address" ∷ [])
      Flow.draws
      Flow.order_transaction
      (state_after Batches.runtime Flow.codec Batches.services
        (λ s. "address" ∷ [])
        []
        assembled_state)).1
    ≡ none
unfolding process_transaction audit_all ticked audit take_record record_added build_record image
    has_before has_after extract_primary_key process_row process_value sealed_value is_listed
    is_null audit_config update_configs is_internal get_table_config get add_record state_after
    bootstrapped bootstrap_all assembled needs_bootstrap load_from_db set_table_config put
    get_all_configs encrypt new_batcher
taken = refl

stops : daemon in_memory_world flags new_memory_store 0 ≡ stopped final
unfolding daemon with_key with_archive with_postgres with_checkpoint with_mysql piped ended
    start_key key_or_new or_default load_key unlock get new_key saved generate_and_save_keyfile put
    run process_transaction audit_all ticked audit take_record record_added build_record image
    has_before has_after extract_primary_key process_row process_value sealed_value is_listed
    is_null audit_config update_configs is_internal get_table_config add_record bootstrapped
    bootstrap_all assembled needs_bootstrap load_from_db set_table_config get_all_configs close
    close_current_batch leaf_hashes compute_record_leaf_hash normalize build_tree build_levels
    encrypt new_batcher
stops = refl

daemon-Has_example : HasRecord "r1" final.services.records
unfolding resumed
daemon-Has_example =
    daemon-Has in_memory_world flags manager new_memory_store 0 final files ("", 0)
      (λ id s. HasRecord id s.records)
      (in_memory-IsDurable Batches.sign_with Batches.marshal Batches.write) [] [] Flow.draws
      Flow.order_transaction 0 Flow.order_insert Flow.order_config made refl refl refl audited taken
      stops

-- The same over the tables.
abbrev world : World Session ℕ
world = record {
  runtime = Batches.runtime;
  crypto = toy;
  random = random;
  keyfiles = [];
  codec_of = λ m. Flow.codec;
  services_of =
      λ m. in_postgres columns Batches.sign_with Batches.marshal (λ calls. no_faults) write_all;
  archive_error = none;
  postgres_error = none;
  mysql_error = none;
  latest_checkpoint = λ s. Queries.get_latest_checkpoint none s.tables;
  unmarshal_columns = λ s. [];
  config_rows = ok [];
  batch_id = "b2";
  now = 6000;
  update_status = Calls.updated;
  run_draw = λ table. Calls.run_draw;
  row_draws = λ table. Calls.row_draws;
  answers = λ table. Calls.answers;
  stream = λ p. ok [];
  end = Batches.moment;
}

unlocked : start_key world flags ≡ ok (files, manager)
unfolding start_key key_or_new or_default load_key unlock get new_key saved
    generate_and_save_keyfile put
unlocked = refl

abbrev closed_session : Batcher → Session
closed_session b =
    (close_current_batch runtime
      (in_postgres columns Batches.sign_with Batches.marshal (λ calls. no_faults) write_all) moment
      b session).1

daemon-resumes_example :
    daemon world flags (closed_session one) 0
    ≡ piped world manager
        (bootstrapped world manager flags (closed_session one) 0)
        (world.stream ("bin.1", 300))
daemon-resumes_example =
    daemon-resumes world flags manager files unlocked refl refl refl (λ s. refl) runtime columns
      Batches.sign_with Batches.marshal (λ calls. no_faults) write_all moment one session closes
      (λ e. cc) (exact_row (stored "r1" ∷ [])) tt 0 (λ e. cc) (omega arith)

-- A batch that a bootstrap filled.
abbrev filled : Batcher
filled = record one { last_position = bootstrap_position; is_bootstrap = true }

filled-closes :
    (close_current_batch runtime
      (in_postgres columns Batches.sign_with Batches.marshal (λ calls. no_faults) write_all)
      moment
      filled
      session).2
    ≡ none
unfolding close_current_batch leaf_hashes compute_record_leaf_hash normalize build_tree build_levels
    create_batch insert_begun insert_batch insert_rest insert_prepared insert_records insert_record
    commit_records commit_transaction find_row stored_batch stored_record image_column jsonb_column
    batch_row compact spaced
filled-closes = refl

exact_filled :
    (root signature : Bytes) (version : String)
    → stored_batch columns (batch_row moment filled root signature version)
      ≡ batch_row moment filled root signature version
unfolding stored_batch batch_row
exact_filled root signature version = refl

daemon-forgets_example :
    daemon world flags (closed_session filled) 0
    ≡ piped world manager
        (bootstrapped world manager flags (closed_session filled) 0)
        (world.stream ("", 0))
daemon-forgets_example =
    daemon-forgets world flags manager files unlocked refl refl refl (λ s. refl) runtime columns
      Batches.sign_with Batches.marshal (λ calls. no_faults) write_all moment filled session
      filled-closes (λ e. cc) exact_filled tt 0 refl
