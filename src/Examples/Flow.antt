-- ===== src/Examples/Flow.antt =====
-- The theorems on internal/snapshot and internal/pipeline at an order with a customer's address.
use logs_tracker.Prelude.{ℕ, String, ◌≡◌, refl, true, false, none, some, List, [], ◌∷◌, ◌++◌}
use logs_tracker.Prelude.Dict.{get}
use logs_tracker.Errors.{ok}
use logs_tracker.Source.{insert, text, Row, RowChange, Transaction}
use logs_tracker.Merkle.{Bytes, build_tree, build_levels}
use logs_tracker.Config.{TableConfig, get_table_config}
use logs_tracker.Signing.{encrypt}
use logs_tracker.Snapshot.{
  Codec, is_listed, is_null, sealed_value, process_value, process_row, image, has_before, has_after,
  extract_primary_key, build_record,
}
use logs_tracker.Store.{MemoryStore, new_memory_store, leaf_hashes}
use logs_tracker.Batch.{add_record, close, close_current_batch}
use logs_tracker.Pipeline.{
  Draw, State, update_configs, audit_config, is_internal, audit, audit_all, ticked, take_record,
  record_added, process_transaction, run,
}
use logs_tracker.Merkle.Payload.{compute_record_leaf_hash, normalize}
use logs_tracker.Examples.Batches.{runtime, services, moment, batcher, place}
use logs_tracker.Examples.Keys.{toy, manager}

abbrev pub nonce : String → Bytes
nonce k = 5 ∷ []

abbrev pub codec : Codec
codec = record {
  encryptor = some (λ k p. encrypt toy manager (nonce k) p);
  marshal_value = λ v. some (1 ∷ 2 ∷ []);
  marshal_row = λ r. some "{}";
  base64_encode = λ b. "BQEC";
  sha256 = λ m. 1 ∷ 2 ∷ 3 ∷ 4 ∷ 5 ∷ 6 ∷ 7 ∷ 8 ∷ [];
  utf8 = λ s. [];
}

abbrev pub order_row : Row
order_row = ("id", text "o1") ∷ ("address", text "Main St 1") ∷ []

abbrev pub sealed_row : Row
sealed_row = ("id", text "o1") ∷ ("address", text "enc:v1:BQEC") ∷ []

processed : process_row codec ("address" ∷ []) order_row ≡ ok sealed_row
unfolding process_row process_value sealed_value is_listed is_null encrypt
processed = refl

listed : is_listed "address" ("address" ∷ []) ≡ true
unfolding is_listed
listed = refl

abbrev pub order_config : TableConfig
order_config = record {
  table_name = "orders";
  enabled = true;
  unattributed_policy = "tolerate";
  severity_tier = "normal";
  encrypted_columns = "address" ∷ [];
  bootstrap_required = false;
  bootstrap_status = "";
  created_at = 0;
  updated_at = 0;
}

abbrev pub order_insert : RowChange
order_insert = record {
  schema = "shop";
  table = "orders";
  action = insert;
  before_image = none;
  after_image = some order_row;
}

abbrev pub order_transaction : Transaction
order_transaction = record {
  transaction_id = "xid:7";
  position = place;
  committed_at = 1;
  changes = order_insert ∷ [];
  ddl_statement = "";
}

abbrev pub draws : ℕ → Draw
draws i = record {
  record_id = "r1";
  alert_id = "a1";
  tested_at = 1;
  stamped_at = 1;
  raised_at = 1;
  moment = moment;
  timer = none;
}

abbrev before : State MemoryStore
before = record {
  config_mgr = record { tables = ("orders", order_config) ∷ [] };
  dispatcher = none;
  batcher = batcher [];
  services = new_memory_store;
}

abbrev no_columns : String → List String
no_columns s = []

audited :
    audit_config order_insert (update_configs no_columns (order_insert ∷ []) before.config_mgr)
    ≡ some order_config
unfolding audit_config update_configs is_internal get_table_config get
audited = refl

no_error :
    (process_transaction runtime codec services no_columns draws order_transaction before).1 ≡ none
unfolding process_transaction audit_all ticked audit take_record record_added build_record image
    has_before has_after extract_primary_key process_row process_value sealed_value is_listed
    is_null encrypt audit_config update_configs is_internal get_table_config get add_record
no_error = refl

run_ends :
    (run runtime codec services no_columns moment ([] ++ (draws, order_transaction) ∷ []) before).1
    ≡ none
unfolding run process_transaction audit_all ticked audit take_record record_added build_record image
    has_before has_after extract_primary_key process_row process_value sealed_value is_listed
    is_null encrypt audit_config update_configs is_internal get_table_config get add_record close
    close_current_batch leaf_hashes compute_record_leaf_hash normalize build_tree build_levels
run_ends = refl
