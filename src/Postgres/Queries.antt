-- ===== src/Postgres/Queries.antt =====
-- internal/store/store.go: the queries of PostgresStore. A connection that breaks while rows are
-- read ends the loop without an error, since the code does not ask for `rows.Err`.
use logs_tracker.Prelude.{
  ℕ, suc, String, append, Bool, ◌&&◌, Option, none, some, List, [], ◌∷◌, map, take, drop, str_eq,
  ltb, leb, ◌==◌, if◌then◌else◌,
}
use logs_tracker.Errors.{GoError, not_found, wrapped, Result, ok, err, ◌>>=◌}
use logs_tracker.Merkle.Payload.{RecordCanonicalPayload, Runtime}
use logs_tracker.Merkle.Verifier.{BatchVerificationData}
use logs_tracker.Store.{Batch, Record, WormIndexEntry, payload_of, all_leaves}
use logs_tracker.Postgres.{RecordRow, Tables, Columns, find_batch, find_record, find_entry}

-- What fetching the next row of an answer does.
pub data Fetch : Type 0 where
  row : Fetch
  broken : Fetch
  unscannable : GoError → Fetch

-- The failure of the query, and what fetching its rows does.
pub record Reply : Type 0 where
  pub failed : Option GoError
  pub fetch : ℕ → Fetch

unfoldable pub fetch_rows {ℓ} : {A : Type ℓ} → String → (ℕ → Fetch) → ℕ → List A → Result (List A)
fetch_rows what fetch i [] = ok []
fetch_rows what fetch i (a ∷ rows) =
    let later = fetch_rows what fetch (suc i) rows in
    elim (fetch i) [
      | broken ↦ ok []
      | unscannable e ↦ err (wrapped (append "failed to scan " what) e)
      | row ↦ do more ← later; ok (a ∷ more)
    ]

-- The rows of a query, in its order.
unfoldable pub query_rows {ℓ} : {A : Type ℓ} → String → String → Reply → List A → Result (List A)
query_rows failed what a rows = elim a.failed [
  | some e ↦ err (wrapped failed e)
  | none ↦ fetch_rows what a.fetch 0 rows
]

-- `QueryRowContext` and `Scan`, where no row is ErrNotFound.
unfoldable pub query_row {ℓ} : {A : Type ℓ} → String → Option GoError → Option A → Result A
query_row text (some e) o = err (wrapped text e)
query_row text none none = err not_found
query_row text none (some a) = ok a

-- A NULL image is nil.
unfoldable pub image_of : Option String → String
image_of none = ""
image_of (some image) = image

unfoldable pub scanned_record : RecordRow → Record
scanned_record r = record {
  id = r.id;
  batch_id = r.batch_id;
  table_name = r.table_name;
  primary_key = r.primary_key;
  event_type = r.event_type;
  before_image = image_of r.before_image;
  after_image = image_of r.after_image;
  actor_user_id = r.actor_user_id;
  actor_type = r.actor_type;
  transaction_id = r.transaction_id;
  schema_version = r.schema_version;
  committed_at = r.committed_at;
  merkle_leaf_index = r.merkle_leaf_index;
}

unfoldable pub get_batch : Option GoError → String → Tables → Result Batch
get_batch failed id t = query_row "failed to get batch" failed (find_batch id t.audit_batches)

unfoldable pub get_record : Option GoError → String → Tables → Result Record
get_record failed id t = do
  r ← query_row "failed to get record" failed (find_record id t.audit_records)
  ok (scanned_record r)

unfoldable pub get_worm_index : Option GoError → String → Tables → Result WormIndexEntry
get_worm_index failed id t =
    query_row "failed to get worm index" failed (find_entry id t.audit_worm_index)

-- WHERE
unfoldable pub rows_where {ℓ} : {A : Type ℓ} → (A → Bool) → List A → List A
rows_where p [] = []
rows_where p (a ∷ rows) = let more = rows_where p rows in if p a then a ∷ more else more

-- ORDER BY: a row stands before those that `before` puts after it. Rows that it leaves equal stay in
-- the order of the list, which stands for the order in which PostgreSQL visits the rows.
unfoldable pub insert_row {ℓ} : {A : Type ℓ} → (A → A → Bool) → A → List A → List A
insert_row before a [] = a ∷ []
insert_row before a (b ∷ rows) =
    let later = insert_row before a rows in if before a b then a ∷ b ∷ rows else b ∷ later

unfoldable pub order_by {ℓ} : {A : Type ℓ} → (A → A → Bool) → List A → List A
order_by before [] = []
order_by before (a ∷ rows) = insert_row before a (order_by before rows)

abbrev pub closed_first : Batch → Batch → Bool
closed_first a b = leb a.closed_at b.closed_at

abbrev pub closed_last : Batch → Batch → Bool
closed_last a b = leb b.closed_at a.closed_at

abbrev pub committed_last : Record → Record → Bool
committed_last a b = leb b.committed_at a.committed_at

abbrev pub index_first : Record → Record → Bool
index_first a b = leb a.merkle_leaf_index b.merkle_leaf_index

-- The first row of an answer; no row is no checkpoint.
unfoldable pub first_checkpoint : List Batch → Result (String × ℕ)
first_checkpoint [] = ok ("", 0)
first_checkpoint (b ∷ rows) = ok (b.binlog_file, b.binlog_position)

unfoldable pub get_latest_checkpoint : Option GoError → Tables → Result (String × ℕ)
get_latest_checkpoint (some e) t = err (wrapped "failed to get latest checkpoint" e)
get_latest_checkpoint none t = first_checkpoint (order_by closed_last t.audit_batches)

abbrev pub signed_before : ℕ → Batch → Bool
signed_before cutoff b = str_eq b.status "signed" && ltb b.closed_at cutoff

unfoldable pub get_batches_for_tiering : Reply → ℕ → Tables → Result (List Batch)
get_batches_for_tiering a cutoff t =
    query_rows "failed to query batches for tiering" "batch" a
      (order_by closed_first (rows_where (signed_before cutoff) t.audit_batches))

-- A limit that is not positive, here 0, becomes 50.
unfoldable pub limit_or_50 : ℕ → ℕ
limit_or_50 limit = if limit == 0 then 50 else limit

-- LIMIT and OFFSET
unfoldable pub page {ℓ} : {A : Type ℓ} → ℕ → ℕ → List A → List A
page limit offset rows = take limit (drop offset rows)

unfoldable pub list_batches : Reply → ℕ → ℕ → Tables → Result (List Batch)
list_batches a limit offset t =
    query_rows "failed to list batches" "batch" a
      (page (limit_or_50 limit) offset (order_by closed_last t.audit_batches))

abbrev pub batch_is : String → Record → Bool
batch_is batch_id r = str_eq r.batch_id batch_id

unfoldable pub get_records_by_batch_id : Reply → String → Tables → Result (List Record)
get_records_by_batch_id a batch_id t =
    query_rows "failed to query records by batch" "record" a
      (order_by index_first (rows_where (batch_is batch_id) (map scanned_record t.audit_records)))

-- Two JSONB values are equal when their texts are.
abbrev pub key_is : Columns → String → String → Record → Bool
key_is columns table key r = str_eq r.table_name table && str_eq r.primary_key (columns.jsonb key)

unfoldable pub get_records_by_table_and_pk :
    Columns → Reply → String → String → ℕ → ℕ → Tables → Result (List Record)
get_records_by_table_and_pk columns a table key limit offset t =
    query_rows "failed to query records by table and pk" "record" a (
      page (limit_or_50 limit) offset (
        order_by committed_last
          (rows_where (key_is columns table key) (map scanned_record t.audit_records))))

module _ (rt : Runtime) where
  -- The failures of the three queries.
  unfoldable pub get_record_for_verification :
      Option GoError
      → Option GoError
      → Reply
      → String
      → Tables
      → Result (RecordCanonicalPayload × BatchVerificationData)
  get_record_for_verification no_record no_batch a record_id t = do
    rec ← get_record no_record record_id t
    batch ← get_batch no_batch rec.batch_id t
    all_records ← get_records_by_batch_id a rec.batch_id t
    leaves ← all_leaves rt all_records
    ok (
      payload_of rt rec,
      record {
        batch_id = batch.id;
        merkle_root = batch.merkle_root;
        signature = batch.signature;
        key_version = batch.key_version;
        all_leaf_hashes = leaves;
        proof = [];
      },
    )
