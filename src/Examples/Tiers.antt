-- ===== src/Examples/Tiers.antt =====
-- The theorems on internal/tiering and the MemoryStore at a store with one old batch.
use logs_tracker.Prelude.{
  ℕ, String, ◌≡◌, refl, Option, false, none, some, [], ◌∷◌, inl, inr, Option-cases,
}
use logs_tracker.Prelude.Dict.{get}
use logs_tracker.Prelude.Int.{pos}
use logs_tracker.Errors.{GoError, object_exists, ok, err}
use logs_tracker.Merkle.{Bytes}
use logs_tracker.Store.{Record, MemoryStore}
use logs_tracker.Archive.{Files, Disk}
use logs_tracker.Archive.WriteOnce.{GivesFreshName}
use logs_tracker.Archive.{put_archive, write_immutable}
use logs_tracker.Store.{
  insert_worm_index, delete_records_by_batch_id, update_batch_status, get_batches_for_tiering,
  get_records_by_batch_id,
}
use logs_tracker.Commands.Tiering.{
  status_of, exit_code, duration_bits, window_of, ran, with_archive, tiering_job,
}
use logs_tracker.Commands.Tiering.Complete.{AllTiered, tiering_job-AllTiered}
use logs_tracker.Tiering.{
  run_once, retention_window, tier_all, tier_batch, with_records, serialize, archive_done,
  index_done, purge_done, status_done,
}
use logs_tracker.Tiering.Purge.{IsSafe, run_once-IsSafe}
use logs_tracker.Tiering.InMemory.{World, Stored, Archived, world_deps, world-IsArchiving}

abbrev old_record : Record
old_record = record {
  id = "r1";
  batch_id = "b1";
  table_name = "orders";
  primary_key = "1";
  event_type = "insert";
  before_image = "";
  after_image = "{}";
  actor_user_id = none;
  actor_type = "SYSTEM";
  transaction_id = "xid:7";
  schema_version = "v1";
  committed_at = 1;
  merkle_leaf_index = 0;
}

abbrev old_store : MemoryStore
old_store = record {
  batches =
      (
        "b1",
        record {
          id = "b1";
          started_at = 0;
          closed_at = 5;
          event_count = 1;
          merkle_root = 9 ∷ [];
          signature = 8 ∷ [];
          key_version = "v1";
          binlog_file = "bin.1";
          binlog_position = 300;
          status = "signed";
          worm_object_key = none;
          is_bootstrap = false;
          bootstrap_table_name = none;
        },
      )
      ∷ [];
  records = ("r1", old_record) ∷ [];
  worm_index = [];
}

-- A temporary file is made if none is there.
abbrev one_temp : Files → Disk
one_temp fs = record {
  stat = none;
  create_temp = elim (get "tmp" fs) [ none ↦ ok "tmp" | some f ↦ err object_exists ];
  write = none;
  sync = none;
  close = none;
  rename = none;
  chmod = none;
  remove = none;
}

one_temp-seen : (fs : Files) → (one_temp fs).stat ≡ none
one_temp-seen fs = refl

one_temp-fresh : (fs : Files) → GivesFreshName (one_temp fs) fs
one_temp-fresh fs temp e = elim (Option-cases (get "tmp" fs)) [
  | inl absent ↦
      let named : ok "tmp" ≡ ok temp = (rw (one_temp, absent) at e) in
      let same : "tmp" ≡ temp = cc in rw (← same) absent
  | inr (f, there) ↦ cc (rw (one_temp, there) at e)
]

abbrev no_text : GoError → String
no_text e = ""

abbrev one_byte : Record → Option Bytes
one_byte r = some (7 ∷ [])

abbrev world : World
world = record { store = old_store; files = [] }

old_record-Stored : Stored old_record world
unfolding get
old_record-Stored = refl

run_once-IsSafe_example :
    IsSafe
      (world_deps one_temp no_text one_byte)
      Stored
      Archived
      (world-IsArchiving one_temp no_text one_byte one_temp-seen one_temp-fresh)
      old_record
      (7 ∷ [])
      refl
      (run_once (world_deps one_temp no_text one_byte) 100 50 (λ id. 101) world).1
run_once-IsSafe_example =
    run_once-IsSafe (world_deps one_temp no_text one_byte) Stored Archived
      (world-IsArchiving one_temp no_text one_byte one_temp-seen one_temp-fresh) old_record (7 ∷ [])
      refl 100 50 (λ id. 101) world old_record-Stored

-- The run of 90 days after 100 nanoseconds: the batch closed at 5.
abbrev run_at : ℕ
run_at = 7_776_000_000_000_100

ends_well :
    exit_code (
      tiering_job
        (world_deps one_temp no_text one_byte)
        none
        none
        run_at
        (λ id. 101)
        (pos 90)
        world)
    ≡ 0
unfolding tiering_job with_archive ran exit_code status_of window_of duration_bits retention_window
    run_once tier_all tier_batch with_records serialize archive_done index_done purge_done
    status_done get_batches_for_tiering put_archive write_immutable get get_records_by_batch_id
    update_batch_status delete_records_by_batch_id insert_worm_index
ends_well = refl

tiering_job-AllTiered_example :
    AllTiered
      (world_deps one_temp no_text one_byte)
      run_at
      (λ id. 101)
      (pos 90)
      world
      (tiering_job
        (world_deps one_temp no_text one_byte)
        none
        none
        run_at
        (λ id. 101)
        (pos 90)
        world)
tiering_job-AllTiered_example =
    tiering_job-AllTiered (world_deps one_temp no_text one_byte) run_at (λ id. 101) (pos 90) world
      none none ends_well
