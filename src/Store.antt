-- ===== src/Store.antt =====
-- internal/store: the rows of batches, records and the WORM index, and the in-memory store.
-- A map is visited in the order of its entries; Go's order is unspecified.
pub mod Records
pub mod Sorting
pub mod Order
pub mod Latest
pub mod Batches
pub mod Checkpoint
pub mod Deletion
use logs_tracker.Prelude.{
  ℕ, String, append, Bool, ◌&&◌, Option, none, some, List, [], ◌∷◌, map, str_eq, ltb, leb,
  if◌then◌else◌,
}
use logs_tracker.Prelude.Dict.{Dict, get, put}
use logs_tracker.Errors.{not_found, Result, ok, err, ◌>>=◌, wrap}
use logs_tracker.Merkle.{Bytes}
use logs_tracker.Merkle.Payload.{RecordCanonicalPayload, Runtime, compute_record_leaf_hash}
use logs_tracker.Merkle.Verifier.{BatchVerificationData}

pub record Batch : Type 0 where
  pub id : String
  pub started_at : ℕ
  pub closed_at : ℕ
  pub event_count : ℕ
  pub merkle_root : Bytes
  pub signature : Bytes
  pub key_version : String
  pub binlog_file : String
  pub binlog_position : ℕ
  pub status : String
  pub worm_object_key : Option String
  pub is_bootstrap : Bool
  pub bootstrap_table_name : Option String

pub record Record : Type 0 where
  pub id : String
  pub batch_id : String
  pub table_name : String
  pub primary_key : String
  pub event_type : String
  pub before_image : String
  pub after_image : String
  pub actor_user_id : Option String
  pub actor_type : String
  pub transaction_id : String
  pub schema_version : String
  pub committed_at : ℕ
  pub merkle_leaf_index : ℕ

pub record WormIndexEntry : Type 0 where
  pub batch_id : String
  pub worm_object_key : String
  pub tiered_at : ℕ
  pub purged_from_postgres_at : Option ℕ

pub record MemoryStore : Type 0 where
  pub batches : Dict Batch
  pub records : Dict Record
  pub worm_index : Dict WormIndexEntry

abbrev pub new_memory_store : MemoryStore
new_memory_store = record { batches = []; records = []; worm_index = [] }

unfoldable pub put_records : List Record → Dict Record → Dict Record
put_records [] m = m
put_records (r ∷ rs) m = put_records rs (put r.id r m)

unfoldable pub create_batch : Batch → List Record → MemoryStore → MemoryStore
unfolding put_records
create_batch b rs m = record m {
  batches = put b.id b m.batches;
  records = put_records rs m.records;
}

abbrev pub found {ℓ} : {A : Type ℓ} → Option A → Result A
found none = err not_found
found (some a) = ok a

unfoldable pub get_batch : String → MemoryStore → Result Batch
get_batch id m = found (get id m.batches)

-- A key that is nil keeps the old one.
unfoldable pub with_status : String → Option String → Batch → Batch
with_status status none b = record b { status = status }
with_status status (some key) b = record b { status = status; worm_object_key = some key }

unfoldable pub update_batch_status :
    String → String → Option String → MemoryStore → Result MemoryStore
unfolding with_status
update_batch_status id status key m = do
  b ← found (get id m.batches)
  ok (record m { batches = put id (with_status status key b) m.batches })

-- The first of the batches that closed last.
unfoldable pub latest : Option Batch → Dict Batch → Option Batch
latest best [] = best
latest none ((k, b) ∷ rest) = latest (some b) rest
latest (some best) ((k, b) ∷ rest) =
    latest (some (if ltb best.closed_at b.closed_at then b else best)) rest

unfoldable pub checkpoint_of : Option Batch → String × ℕ
checkpoint_of none = ("", 0)
checkpoint_of (some b) = (b.binlog_file, b.binlog_position)

unfoldable pub get_latest_checkpoint : MemoryStore → String × ℕ
unfolding latest checkpoint_of
get_latest_checkpoint m = checkpoint_of (latest none m.batches)

unfoldable pub select {ℓ} : {A : Type ℓ} → (A → Bool) → Dict A → List A
select p [] = []
select p ((k, a) ∷ rest) = let more = select p rest in if p a then a ∷ more else more

is_due : ℕ → Batch → Bool
is_due older_than b = str_eq b.status "signed" && ltb b.closed_at older_than

unfoldable pub get_batches_for_tiering : ℕ → MemoryStore → List Batch
unfolding select is_due
get_batches_for_tiering older_than m = select (is_due older_than) m.batches

-- The limit and the offset are not read.
unfoldable pub list_batches : ℕ → ℕ → MemoryStore → List Batch
list_batches limit offset m = map (λ (e : String × Batch). e.1) m.batches

unfoldable pub get_record : String → MemoryStore → Result Record
get_record id m = found (get id m.records)

-- `sort.Slice` by the leaf index.
unfoldable pub insert_by_index : Record → List Record → List Record
insert_by_index r [] = r ∷ []
insert_by_index r (s ∷ rest) =
    let later = insert_by_index r rest in
    if leb r.merkle_leaf_index s.merkle_leaf_index then r ∷ s ∷ rest else s ∷ later

unfoldable pub sort_by_index : List Record → List Record
unfolding insert_by_index
sort_by_index [] = []
sort_by_index (r ∷ rs) = insert_by_index r (sort_by_index rs)

unfoldable pub in_batch : String → Record → Bool
in_batch batch_id r = str_eq r.batch_id batch_id

unfoldable pub get_records_by_batch_id : String → MemoryStore → List Record
unfolding select in_batch sort_by_index
get_records_by_batch_id batch_id m = sort_by_index (select (in_batch batch_id) m.records)

has_key : String → String → Record → Bool
has_key table key r = str_eq r.table_name table && str_eq r.primary_key key

-- The limit and the offset are not read.
unfoldable pub get_records_by_table_and_pk : String → String → ℕ → ℕ → MemoryStore → List Record
unfolding select has_key
get_records_by_table_and_pk table key limit offset m = select (has_key table key) m.records

unfoldable pub drop_batch : String → Dict Record → Dict Record
unfolding in_batch
drop_batch batch_id [] = []
drop_batch batch_id ((k, r) ∷ rest) =
    let kept = drop_batch batch_id rest in if in_batch batch_id r then kept else (k, r) ∷ kept

unfoldable pub delete_records_by_batch_id : String → MemoryStore → MemoryStore
unfolding drop_batch
delete_records_by_batch_id batch_id m = record m { records = drop_batch batch_id m.records }

unfoldable pub insert_worm_index : WormIndexEntry → MemoryStore → MemoryStore
insert_worm_index e m = record m { worm_index = put e.batch_id e m.worm_index }

unfoldable pub get_worm_index : String → MemoryStore → Result WormIndexEntry
get_worm_index batch_id m = found (get batch_id m.worm_index)

module _ (rt : Runtime) where
  -- The payload of a record, as the batcher and the stores build it.
  abbrev pub payload_of : Record → RecordCanonicalPayload
  payload_of r = record {
    id = r.id;
    batch_id = r.batch_id;
    table_name = r.table_name;
    primary_key = r.primary_key;
    event_type = r.event_type;
    before_image = r.before_image;
    after_image = r.after_image;
    actor_user_id = r.actor_user_id;
    actor_type = r.actor_type;
    transaction_id = r.transaction_id;
    schema_version = r.schema_version;
    committed_at = rt.format_time r.committed_at;
    merkle_leaf_index = r.merkle_leaf_index;
  }

  unfoldable pub leaf_hashes : List Record → Result (List Bytes)
  leaf_hashes [] = ok []
  leaf_hashes (r ∷ rs) = do
    h ← compute_record_leaf_hash rt (payload_of r)
    hs ← leaf_hashes rs
    ok (h ∷ hs)

  -- The loop of GetRecordForVerification.
  unfoldable pub all_leaves : List Record → Result (List Bytes)
  all_leaves [] = ok []
  all_leaves (r ∷ rs) = do
    h ←
        wrap (append "failed to compute leaf hash for record " r.id)
          (compute_record_leaf_hash rt (payload_of r))
    hs ← all_leaves rs
    ok (h ∷ hs)

  unfoldable pub get_record_for_verification :
      String → MemoryStore → Result (RecordCanonicalPayload × BatchVerificationData)
  unfolding get_records_by_batch_id
  get_record_for_verification record_id m = do
    rec ← found (get record_id m.records)
    batch ← found (get rec.batch_id m.batches)
    leaves ← all_leaves (get_records_by_batch_id rec.batch_id m)
    ok (
      payload_of rec,
      record {
        batch_id = batch.id;
        merkle_root = batch.merkle_root;
        signature = batch.signature;
        key_version = batch.key_version;
        all_leaf_hashes = leaves;
        proof = [];
      },
    )
