-- ===== src/Postgres.antt =====
-- internal/store/store.go: PostgresStore, over the tables that migrations/postgres creates. A
-- statement does what it says on the rows of the tables, and keeps their primary and foreign keys. A
-- table is a list of rows; the order in which PostgreSQL visits them is left open, and Rearranged has
-- all of them.
-- The column types and the failures of the connection are parameters.
pub mod Changes
pub mod Queries
pub mod Atomic
pub mod Keys
pub mod View
pub mod Commands
pub mod Constraints
pub mod Consistency
pub mod Agreement
pub mod Rearranged
pub mod Answers
pub mod Session
pub mod Retry
pub mod Verified
pub mod Resume
use logs_tracker.Prelude.{
  ℕ, zero, suc, String, append, Bool, Option, none, some, List, [], ◌∷◌, ◌++◌, map, str_eq,
  if◌then◌else◌,
}
use logs_tracker.Errors.{GoError, not_found, failure, wrapped, Result, ok, err, ◌>>=◌, wrap}
use logs_tracker.Store.{Batch, Record, WormIndexEntry, with_status}

-- A row of audit_records: an image is NULL or JSON.
pub record RecordRow : Type 0 where
  pub id : String
  pub batch_id : String
  pub table_name : String
  pub primary_key : String
  pub event_type : String
  pub before_image : Option String
  pub after_image : Option String
  pub actor_user_id : Option String
  pub actor_type : String
  pub transaction_id : String
  pub schema_version : String
  pub committed_at : ℕ
  pub merkle_leaf_index : ℕ

pub record Tables : Type 0 where
  pub audit_batches : List Batch
  pub audit_records : List RecordRow
  pub audit_worm_index : List WormIndexEntry

-- Whether the values of a row fit its columns, the text of a JSONB value, and the time that a
-- TIMESTAMPTZ column keeps of a time.
pub record Columns : Type 0 where
  pub fit_batch : Batch → Bool
  pub fit_record : RecordRow → Bool
  pub fit_entry : WormIndexEntry → Bool
  pub jsonb : String → String
  pub timestamp : ℕ → ℕ

-- A commit may be refused, and its answer may be lost after it is done.
pub data Commit : Type 0 where
  done : Commit
  refused : GoError → Commit
  unanswered : GoError → Commit

-- The failures of the calls of CreateBatch.
pub record Faults : Type 0 where
  pub begin : Option GoError
  pub batch_insert : Option GoError
  pub prepare : Option GoError
  pub record_insert : ℕ → Option GoError
  pub commit : Commit

-- A call that fails does nothing.
abbrev pub unless_failed {ℓ} : {A : Type ℓ} → Option GoError → Result A → Result A
unless_failed none r = r
unless_failed (some e) r = err e

-- The row of a table with a value of its primary key.
unfoldable pub find_row {ℓ} : {A : Type ℓ} → (A → String) → String → List A → Option A
find_row key id [] = none
find_row key id (a ∷ rows) = if str_eq (key a) id then some a else find_row key id rows

abbrev pub batch_key : Batch → String
batch_key b = b.id

abbrev pub record_key : RecordRow → String
record_key r = r.id

abbrev pub entry_key : WormIndexEntry → String
entry_key e = e.batch_id

abbrev pub find_batch : String → List Batch → Option Batch
find_batch = find_row batch_key

abbrev pub find_record : String → List RecordRow → Option RecordRow
find_record = find_row record_key

abbrev pub find_entry : String → List WormIndexEntry → Option WormIndexEntry
find_entry = find_row entry_key

-- An image of no bytes is stored as NULL.
unfoldable pub image_column : String → Option String
image_column image = if str_eq image "" then none else some image

unfoldable pub jsonb_column : (String → String) → Option String → Option String
jsonb_column jsonb none = none
jsonb_column jsonb (some image) = some (jsonb image)

module _ (columns : Columns) where
  unfoldable pub stored_batch : Batch → Batch
  stored_batch b = record b {
    started_at = columns.timestamp b.started_at;
    closed_at = columns.timestamp b.closed_at;
  }

  -- The arguments of the statement, as the columns keep them.
  unfoldable pub stored_record : Record → RecordRow
  unfolding image_column jsonb_column
  stored_record r = record {
    id = r.id;
    batch_id = r.batch_id;
    table_name = r.table_name;
    primary_key = columns.jsonb r.primary_key;
    event_type = r.event_type;
    before_image = jsonb_column columns.jsonb (image_column r.before_image);
    after_image = jsonb_column columns.jsonb (image_column r.after_image);
    actor_user_id = r.actor_user_id;
    actor_type = r.actor_type;
    transaction_id = r.transaction_id;
    schema_version = r.schema_version;
    committed_at = columns.timestamp r.committed_at;
    merkle_leaf_index = r.merkle_leaf_index;
  }

  unfoldable pub insert_batch : Batch → Tables → Result Tables
  insert_batch b t = elim (find_batch b.id t.audit_batches) [
    | some other ↦ err (failure "duplicate key value violates unique constraint")
    | none ↦
        if columns.fit_batch b
        then ok (record t { audit_batches = t.audit_batches ++ stored_batch b ∷ [] })
        else err (failure "invalid value")
  ]

  -- The batch of a record must exist.
  unfoldable pub insert_record : Record → Tables → Result Tables
  insert_record r t = elim (find_record r.id t.audit_records) [
    | some other ↦ err (failure "duplicate key value violates unique constraint")
    | none ↦ elim (find_batch r.batch_id t.audit_batches) [
      | none ↦ err (failure "violates foreign key constraint")
      | some b ↦
          if columns.fit_record (stored_record r)
          then ok (record t { audit_records = t.audit_records ++ stored_record r ∷ [] })
          else err (failure "invalid value")
    ]
  ]

  unfoldable pub insert_records : Faults → ℕ → List Record → Tables → Result Tables
  insert_records f i [] t = ok t
  insert_records f i (r ∷ rs) t = do
    t' ←
        wrap (append "failed to insert audit_record (" (append r.id ")"))
          (unless_failed (f.record_insert i) (insert_record r t))
    insert_records f (suc i) rs t'

  -- The tables before the transaction, and those that it would leave.
  unfoldable pub commit_transaction : Tables → Tables → Commit → Tables × Option GoError
  commit_transaction t t' done = (t', none)
  commit_transaction t t' (refused e) = (t, some (wrapped "failed to commit batch transaction" e))
  commit_transaction t t' (unanswered e) =
      (t', some (wrapped "failed to commit batch transaction" e))

  -- Each return before the commit rolls back.
  unfoldable pub commit_records : Faults → Tables → Result Tables → Tables × Option GoError
  commit_records f t (err e) = (t, some e)
  commit_records f t (ok t') = commit_transaction t t' f.commit

  unfoldable pub insert_prepared :
      Faults → List Record → Tables → Tables → Option GoError → Tables × Option GoError
  insert_prepared f rs t t' (some e) = (t, some (wrapped "failed to prepare record insert stmt" e))
  insert_prepared f rs t t' none = commit_records f t (insert_records f 0 rs t')

  unfoldable pub insert_rest :
      Faults → List Record → Tables → Result Tables → Tables × Option GoError
  insert_rest f rs t (err e) = (t, some (wrapped "failed to insert audit_batches" e))
  insert_rest f rs t (ok t') = insert_prepared f rs t t' f.prepare

  unfoldable pub insert_begun :
      Faults → Batch → List Record → Tables → Option GoError → Tables × Option GoError
  insert_begun f b rs t (some e) = (t, some (wrapped "failed to begin transaction" e))
  insert_begun f b rs t none = insert_rest f rs t (unless_failed f.batch_insert (insert_batch b t))

  unfoldable pub create_batch : Faults → Batch → List Record → Tables → Tables × Option GoError
  create_batch f b rs t = insert_begun f b rs t f.begin
