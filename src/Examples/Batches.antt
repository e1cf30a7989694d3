-- ===== src/Examples/Batches.antt =====
-- The theorems on internal/batch at a batcher that closes after two records, over the in-memory
-- store.
use logs_tracker.Prelude.{
  Bool, ℕ, zero, suc, true, ◌<◌, String, ◌≡◌, ◌⊎◌, refl, false, Option, none, some, List, [], ◌∷◌,
  length, arith,
}
use logs_tracker.Errors.{GoError, Result, ok}
use logs_tracker.Source.{Position}
use logs_tracker.Merkle.{Bytes}
use logs_tracker.Merkle.{build_tree, build_levels}
use logs_tracker.Merkle.Payload.{Runtime, normalize, compute_record_leaf_hash}
use logs_tracker.Merkle.Verifier.{verify_record}
use logs_tracker.Prelude.Dict.{get}
use logs_tracker.Batch.Verified.{close_current_batch-valid}
use logs_tracker.Store.{
  Record, MemoryStore, new_memory_store, leaf_hashes, get_records_by_batch_id,
  get_record_for_verification,
}
use logs_tracker.Batch.{
  CheckpointObject, Batcher, Services, Moment, close_current_batch, add_record,
}
use logs_tracker.Batch.Closing.{Failure}
use logs_tracker.Batch.Sealing.{Sealed, close_current_batch_lem}
use logs_tracker.Batch.Numbering.{add_record-max_events}
use logs_tracker.Batch.Conservation.{Op, add, flush_now, run, IsSafe, run-added}
use logs_tracker.Batch.InMemory.{HasRecord, in_memory, in_memory-IsDurable}

abbrev pub zeros : ℕ → Bytes
zeros zero = []
zeros (suc n) = 0 ∷ zeros n

abbrev pub runtime : Runtime
runtime = record {
  sha256 = λ m. length m ∷ zeros 31;
  marshal_payload = λ p. some (p.merkle_leaf_index ∷ []);
  parse_time = λ s. none;
  format_time = λ t. "";
}

abbrev pub sign_with : Bytes → Result (Bytes × String)
sign_with root = ok (7 ∷ root, "v1")

abbrev pub marshal : CheckpointObject → Option Bytes
marshal c = some (c.event_count ∷ [])

abbrev pub write : String → Bytes → Option GoError
write id content = none

abbrev pub services : Services MemoryStore
services = in_memory sign_with marshal write

abbrev pub moment : Moment
moment = record { now = 5; reopened_at = 6; next_id = "b2" }

abbrev pub order : String → Record
order id = record {
  id = id;
  batch_id = "";
  table_name = "orders";
  primary_key = id;
  event_type = "insert";
  before_image = "";
  after_image = "{}";
  actor_user_id = none;
  actor_type = "SYSTEM";
  transaction_id = "xid:7";
  schema_version = "v1";
  committed_at = 1;
  merkle_leaf_index = 0;
}

abbrev pub place : Position
place = record { file = "bin.1"; position = 300; gtid = "" }

abbrev pub batcher : List Record → Batcher
batcher rs = record {
  cfg = record { max_interval = 60; max_events = 3 };
  current_batch_id = "b1";
  started_at = 0;
  records = rs;
  alerts_queue = [];
  last_position = place;
  timer_set = true;
  is_bootstrap = false;
  bootstrap_table = "";
}

abbrev pub stored : Record
stored = record (order "r1") { batch_id = "b1" }

close_current_batch_lem_example :
    Failure runtime services
      (batcher (stored ∷ []))
      (close_current_batch runtime services moment (batcher (stored ∷ [])) new_memory_store)
    ⊎ Sealed runtime services moment
        (batcher (stored ∷ []))
        new_memory_store
        (close_current_batch runtime services moment (batcher (stored ∷ [])) new_memory_store)
close_current_batch_lem_example =
    close_current_batch_lem runtime services moment (batcher (stored ∷ [])) new_memory_store
      (λ e. cc)

abbrev ops : List Op
ops = add moment (order "r1") place ∷ flush_now moment ∷ add moment (order "r2") place ∷ []

run-added_example :
    IsSafe runtime services
      (λ id s. HasRecord id s.records)
      (in_memory-IsDurable sign_with marshal write)
      "r1"
      (run runtime services ops (batcher []) new_memory_store).0
      (run runtime services ops (batcher []) new_memory_store).1
run-added_example =
    run-added runtime services (λ id s. HasRecord id s.records)
      (in_memory-IsDurable sign_with marshal write) ops (batcher []) new_memory_store "r1" (0, refl)

no_error :
    (add_record runtime services moment
      (order "r2")
      place
      (batcher (stored ∷ []))
      new_memory_store).2
    ≡ none
unfolding add_record
no_error = refl

add_record-max_events_example :
    length
      (add_record runtime services moment
        (order "r2")
        place
        (batcher (stored ∷ []))
        new_memory_store).0.records
    < 3
add_record-max_events_example =
    add_record-max_events runtime services moment (order "r2") place (batcher (stored ∷ []))
      new_memory_store (omega arith) no_error

abbrev pub check_with : Bytes → Bytes → String → Result Bool
check_with digest signature version = ok true

nothing_listed : get_records_by_batch_id "b1" new_memory_store ≡ []
unfolding get_records_by_batch_id
nothing_listed = refl

nothing_stored : get "r1" new_memory_store.records ≡ none
unfolding get
nothing_stored = refl

closes :
    (close_current_batch runtime services moment (batcher (stored ∷ [])) new_memory_store).2 ≡ none
unfolding close_current_batch leaf_hashes compute_record_leaf_hash normalize build_tree build_levels
closes = refl

close_current_batch-valid_example :
    (verify_record runtime check_with 100 "r1" (
      get_record_for_verification runtime "r1"
        (close_current_batch runtime services moment
          (batcher (stored ∷ []))
          new_memory_store).1)).0.valid
    ≡ true
close_current_batch-valid_example =
    close_current_batch-valid runtime sign_with marshal write check_with (λ d s v e. refl) moment
      (batcher (stored ∷ [])) new_memory_store 100 0 stored closes (refl, refl, tt)
      (nothing_stored, tt) nothing_listed refl
