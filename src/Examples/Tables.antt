-- ===== src/Examples/Tables.antt =====
-- The theorems on PostgresStore of internal/store at tables that keep times in microseconds.
use logs_tracker.Prelude.{
  ℕ, ◌*◌, ◌/◌, ◌==◌, true, String, ◌≡◌, ◌⊎◌, refl, Option, none, some, List, [], ◌∷◌, ◌++◌, All,
  if◌then◌else◌, append, str_eq,
}
use logs_tracker.Errors.{GoError, failure}
use logs_tracker.Merkle.{Bytes}
use logs_tracker.Merkle.{build_tree, build_levels}
use logs_tracker.Merkle.Payload.{Runtime, normalize, compute_record_leaf_hash}
use logs_tracker.Merkle.Verifier.{verify_record}
use logs_tracker.Store.{Batch, Record, leaf_hashes}
use logs_tracker.Batch.{Batcher, Moment, batch_row, close_current_batch}
use logs_tracker.Batch.Conservation.{Op, add, flush_now, run}
use logs_tracker.Postgres.{
  Tables, Columns, Faults, done, find_row, stored_batch, stored_record, image_column, jsonb_column,
  insert_batch, insert_record, insert_records, commit_transaction, commit_records, insert_prepared,
  insert_rest, insert_begun, create_batch,
}
use logs_tracker.Postgres.Atomic.{Unchanged, Written, extended, create_batch_lem}
use logs_tracker.Postgres.Queries
use logs_tracker.Postgres.Queries.{scanned_record, image_of}
use logs_tracker.Postgres.Constraints.{IsConsistent}
use logs_tracker.Postgres.Answers.{answered}
use logs_tracker.Postgres.Session.{Session, in_postgres}
use logs_tracker.Postgres.Retry.{IsStored, run-never_closes}
use logs_tracker.Postgres.Verified.{IsSameJson, close-valid}
use logs_tracker.Examples.Batches
use logs_tracker.Examples.Batches.{sign_with, marshal, check_with, order, place, batcher}

-- A JSONB value is read back with a space after each colon.
unfoldable pub spaced : String → String
spaced String.[] = String.[]
spaced (String.◌∷◌ c s) =
    let later = spaced s in
    if str_eq (String.◌∷◌ c String.[]) ":"
    then String.◌∷◌ c (append " " later)
    else String.◌∷◌ c later

-- `json.Marshal` leaves out the spaces of raw JSON.
unfoldable pub compact : String → String
compact String.[] = String.[]
compact (String.◌∷◌ c s) =
    let later = compact s in
    if str_eq (String.◌∷◌ c String.[]) " " then later else String.◌∷◌ c later

-- The payloads of rows with this key.
abbrev pub runtime : Runtime
runtime = record Batches.runtime {
  marshal_payload = λ p.
      if str_eq (compact p.primary_key) "{\"id\":42}"
      then some (p.merkle_leaf_index ∷ [])
      else none;
}

abbrev pub columns : Columns
columns = record {
  fit_batch = λ b. true;
  fit_record = λ r. true;
  fit_entry = λ e. true;
  jsonb = spaced;
  timestamp = λ t. t / 1000 * 1000;
}

abbrev pub no_faults : Faults
no_faults = record {
  begin = none;
  batch_insert = none;
  prepare = none;
  record_insert = λ i. none;
  commit = done;
}

-- The second record is refused.
abbrev pub one_fault : Faults
one_fault = record no_faults {
  record_insert = λ i. if i == 1 then some (failure "connection reset") else none;
}

abbrev pub empty_tables : Tables
empty_tables = record { audit_batches = []; audit_records = []; audit_worm_index = [] }

pub empty-IsConsistent : IsConsistent empty_tables
empty-IsConsistent = record {
  batch_keys = tt;
  record_keys = tt;
  entry_keys = tt;
  record_batches = tt;
  entry_batches = tt;
}

abbrev pub stored : String → Record
stored id = record (order id) { batch_id = "b1"; primary_key = "{\"id\":42}"; committed_at = 1000 }

abbrev pub second : Record
second = record (stored "r2") { merkle_leaf_index = 1 }

abbrev pub moment : Moment
moment = record { now = 5000; reopened_at = 6000; next_id = "b2" }

abbrev pub row : Batch
row = batch_row moment (batcher (stored "r1" ∷ second ∷ [])) (1 ∷ []) (2 ∷ []) "v1"

create_batch_lem_example :
    Unchanged empty_tables
      (create_batch columns one_fault row (stored "r1" ∷ second ∷ []) empty_tables)
    ⊎ Written one_fault
        (extended columns row (stored "r1" ∷ second ∷ []) empty_tables)
        (create_batch columns one_fault row (stored "r1" ∷ second ∷ []) empty_tables)
create_batch_lem_example =
    create_batch_lem columns one_fault row (stored "r1" ∷ second ∷ []) empty_tables

pub exact_row :
    (rs : List Record) (root signature : Bytes) (version : String)
    → stored_batch columns (batch_row moment (batcher rs) root signature version)
      ≡ batch_row moment (batcher rs) root signature version
unfolding stored_batch batch_row
exact_row rs root signature version = refl

abbrev write : ℕ → String → Bytes → Option GoError
write calls id content = if calls == 1 then some (failure "no space left on device") else none

abbrev pub session : Session
session = record { tables = empty_tables; calls = 0 }

abbrev pub one : Batcher
one = batcher (stored "r1" ∷ [])

-- After a close that stored the batch and could not write its checkpoint.
abbrev after_failure : Session
after_failure =
    (close_current_batch runtime (in_postgres columns sign_with marshal (λ calls. no_faults) write)
      moment one session).1

after_failure-IsStored :
    IsStored columns runtime sign_with marshal (λ calls. no_faults) write one after_failure
unfolding close_current_batch leaf_hashes compute_record_leaf_hash normalize build_tree build_levels
    create_batch insert_begun insert_batch insert_rest insert_prepared insert_records insert_record
    commit_records commit_transaction find_row stored_batch stored_record image_column jsonb_column
    batch_row compact spaced
after_failure-IsStored = (_, refl)

abbrev retries : List Op
retries = flush_now moment ∷ add moment (order "r2") place ∷ []

run-never_closes_example :
    ((e : GoError) × ((close_current_batch runtime
          (in_postgres columns sign_with marshal (λ calls. no_faults) write)
          moment
          (run runtime
            (in_postgres columns sign_with marshal (λ calls. no_faults) write)
            retries
            one
            after_failure).0
          (run runtime
            (in_postgres columns sign_with marshal (λ calls. no_faults) write)
            retries
            one
            after_failure).1).2
        ≡ some e))
    × ((run runtime
          (in_postgres columns sign_with marshal (λ calls. no_faults) write)
          retries
          one
          after_failure).0.current_batch_id
        ≡ "b1")
    × ((more : List Record) × ((run runtime
            (in_postgres columns sign_with marshal (λ calls. no_faults) write)
            retries
            one
            after_failure).0.records
          ≡ (stored "r1" ∷ []) ++ more))
run-never_closes_example =
    run-never_closes columns runtime sign_with marshal (λ calls. no_faults) write retries moment one
      after_failure (λ e. cc) after_failure-IsStored

abbrev pub write_all : ℕ → String → Bytes → Option GoError
write_all calls id content = none

pub closes :
    (close_current_batch runtime
      (in_postgres columns sign_with marshal (λ calls. no_faults) write_all)
      moment
      one
      session).2
    ≡ none
unfolding close_current_batch leaf_hashes compute_record_leaf_hash normalize build_tree build_levels
    create_batch insert_begun insert_batch insert_rest insert_prepared insert_records insert_record
    commit_records commit_transaction find_row stored_batch stored_record image_column jsonb_column
    batch_row compact spaced
closes = refl

pub one-IsSameJson : All (IsSameJson columns runtime) one.records
unfolding scanned_record stored_record normalize spaced compact
one-IsSameJson = (refl, tt)

close-valid_example :
    (verify_record runtime check_with 100 "r1" (
      Queries.get_record_for_verification runtime none none answered "r1"
        (close_current_batch runtime
          (in_postgres columns sign_with marshal (λ calls. no_faults) write_all)
          moment
          one
          session).1.tables)).0.valid
    ≡ true
close-valid_example =
    close-valid columns runtime sign_with marshal (λ calls. no_faults) write_all check_with
      (λ d s v e. refl) moment one session 100 0 (stored "r1") closes empty-IsConsistent
      (refl, refl, tt) one-IsSameJson refl
