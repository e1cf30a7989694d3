-- ===== src/Postgres/Answers.antt =====
-- The queries of PostgresStore in internal/store/store.go, where no call of the database fails.
use mathlib.Core.Option
use logs_tracker.Prelude.{
  ℕ, suc, String, ◌≡◌, refl, ap, sym, ◌∙◌, Option, none, some, List, [], ◌∷◌, map, leb,
  if◌then◌else◌,
}
use logs_tracker.Errors.{ok, ◌>>=◌}
use logs_tracker.Merkle.Payload.{Runtime}
use logs_tracker.Store
use logs_tracker.Store.{Batch, Record, insert_by_index, sort_by_index, payload_of, all_leaves}
use logs_tracker.Postgres.{RecordRow, Tables, batch_key, record_key, find_batch, find_record}
use logs_tracker.Postgres.Queries
use logs_tracker.Postgres.Queries.{
  Fetch, row, Reply, fetch_rows, query_rows, query_row, scanned_record, order_by, insert_row,
  index_first, rows_where, batch_is,
}
use logs_tracker.Postgres.View.{view, get-keyed, select-keyed_records}

-- The query succeeds and every row is fetched.
abbrev pub answered : Reply
answered = record { failed = none; fetch = λ i. row }

fetch_rows-row {ℓ} :
    {A : Type ℓ} (what : String) (i : ℕ) (rows : List A)
    → fetch_rows what (λ j. row) i rows ≡ ok rows
unfolding fetch_rows
fetch_rows-row what i [] = refl
fetch_rows-row what i (a ∷ rows) = rw (fetch_rows-row what (suc i) rows) refl

query_rows-answered {ℓ} :
    {A : Type ℓ} (failed what : String) (rows : List A)
    → query_rows failed what answered rows ≡ ok rows
unfolding query_rows
query_rows-answered failed what rows = fetch_rows-row what 0 rows

map_id {ℓ} : {A : Type ℓ} (o : Option A) → Option.map (λ a. a) o ≡ o
map_id none = refl
map_id (some a) = refl

insert_row-index_first :
    (r : Record) (rs : List Record) → insert_row index_first r rs ≡ insert_by_index r rs
unfolding insert_row insert_by_index
insert_row-index_first r [] = refl
insert_row-index_first r (s ∷ rs) =
    ap (λ later. if leb r.merkle_leaf_index s.merkle_leaf_index then r ∷ s ∷ rs else s ∷ later)
      (insert_row-index_first r rs)

order_by-index_first : (rs : List Record) → order_by index_first rs ≡ sort_by_index rs
unfolding order_by sort_by_index
order_by-index_first [] = refl
order_by-index_first (r ∷ rs) =
    ap (insert_row index_first r) (order_by-index_first rs)
    ∙ insert_row-index_first r (sort_by_index rs)

-- The first row, and the one that stands first once another is inserted.
abbrev head_row : List Batch → Option Batch
head_row [] = none
head_row (b ∷ rows) = some b

abbrev later_of : Batch → Option Batch → Option Batch
later_of b none = some b
later_of b (some c) = if leb c.closed_at b.closed_at then some b else some c

query_row-found {ℓ} :
    {A : Type ℓ} (text : String) (o : Option A) → query_row text none o ≡ Store.found o
unfolding query_row
query_row-found text none = refl
query_row-found text (some a) = refl

pub get_batch-view :
    (id : String) (t : Tables) → Queries.get_batch none id t ≡ Store.get_batch id (view t)
unfolding Queries.get_batch Store.get_batch
get_batch-view id t =
    query_row-found "failed to get batch" (find_batch id t.audit_batches)
    ∙ ap Store.found (sym (get-keyed batch_key (λ b. b) id t.audit_batches ∙ map_id _))

record_answer :
    (o : Option RecordRow)
    → (query_row "failed to get record" none o >>= λ r. ok (scanned_record r))
      ≡ Store.found (Option.map scanned_record o)
unfolding query_row
record_answer none = refl
record_answer (some r) = refl

get_record-view :
    (id : String) (t : Tables) → Queries.get_record none id t ≡ Store.get_record id (view t)
unfolding Queries.get_record Store.get_record
get_record-view id t =
    record_answer (find_record id t.audit_records)
    ∙ ap Store.found (sym (get-keyed record_key scanned_record id t.audit_records))

get_records_by_batch_id-view :
    (id : String) (t : Tables)
    → Queries.get_records_by_batch_id answered id t ≡ ok (Store.get_records_by_batch_id id (view t))
unfolding Queries.get_records_by_batch_id Store.get_records_by_batch_id
get_records_by_batch_id-view id t =
    let chosen = rows_where (batch_is id) (map scanned_record t.audit_records) in
    query_rows-answered "failed to query records by batch" "record" (order_by index_first chosen)
    ∙ ap ok (
        order_by-index_first chosen
        ∙ ap sort_by_index (sym (select-keyed_records id t.audit_records)))

module _ (rt : Runtime) where
  pub get_record_for_verification-view :
      (id : String) (t : Tables)
      → Queries.get_record_for_verification rt none none answered id t
        ≡ Store.get_record_for_verification rt id (view t)
  unfolding Queries.get_record_for_verification Store.get_record_for_verification Store.get_record
      Store.get_batch
  get_record_for_verification-view id t = λ i. do
    rec ← get_record-view id t i
    batch ← get_batch-view rec.batch_id t i
    rs ← get_records_by_batch_id-view rec.batch_id t i
    leaves ← all_leaves rt rs
    ok (
      payload_of rt rec,
      record {
        batch_id = batch.id;
        merkle_root = batch.merkle_root;
        signature = batch.signature;
        key_version = batch.key_version;
        all_leaf_hashes = leaves;
        proof = [];
      },
    )
