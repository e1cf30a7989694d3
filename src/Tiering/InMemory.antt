-- ===== src/Tiering/InMemory.antt =====
-- The tiering job of internal/tiering/tiering.go over the MemoryStore of internal/store/store.go and
-- the archive of internal/archive/archive.go.
use logs_tracker.Prelude.{
  Occurs, String, ◌≡◌, refl, ap, subst, Option, none, some, Option-cases, inl, inr,
}
use logs_tracker.Prelude.Dict.{get, put}
use logs_tracker.Errors.{GoError, Result, ok, err, ok-injective}
use logs_tracker.Merkle.{Bytes}
use logs_tracker.Store.{
  Batch, Record, MemoryStore, with_status, get_batches_for_tiering, get_records_by_batch_id,
  delete_records_by_batch_id, insert_worm_index, update_batch_status,
}
use logs_tracker.Store.Records.{get_records_by_batch_id_lem, delete_records_by_batch_id-keeps}
use logs_tracker.Archive.{File, Files, Disk, archive_path, put_archive}
use logs_tracker.Archive.WriteOnce.{
  GivesFreshName, present-write_immutable, write_immutable_lem, write_immutable-keeps,
}
use logs_tracker.Tiering.{Deps}
use logs_tracker.Tiering.Purge.{Keeps, IsArchiving}

pub record World : Type 0 where
  pub store : MemoryStore
  pub files : Files

abbrev pub Stored : Record → World → Type 0
Stored r w = get r.id w.store.records ≡ some r

abbrev pub Archived : String → Bytes → World → Type 0
Archived id c w = (f : File) × (get (archive_path id) w.files ≡ some f) × (f.content ≡ c)

abbrev pub with_store : World → Result MemoryStore → World × Option GoError
with_store w (ok m) = (record w { store = m }, none)
with_store w (err e) = (w, some e)

-- What the system calls return may depend on the files that are there.
module _ (disk : Files → Disk) (error_text : GoError → String)
    (marshal_record : Record → Option Bytes) where
  abbrev pub archiving_world : String → Bytes → World → World × Option GoError
  archiving_world id c w =
      let (files, e) = put_archive (disk w.files) id c w.files in (record w { files = files }, e)

  -- The job over the in-memory store and the archive; nobody listens to alerts.
  abbrev pub world_deps : Deps World
  world_deps = record {
    batches_for_tiering = λ older w. ok (get_batches_for_tiering older w.store);
    records_by_batch_id = λ id w. ok (get_records_by_batch_id id w.store);
    put_archive = archiving_world;
    insert_worm_index = λ e w. (record w { store = insert_worm_index e w.store }, none);
    delete_records = λ id w. (record w { store = delete_records_by_batch_id id w.store }, none);
    update_batch_status =
        λ id status key w. with_store w (update_batch_status id status key w.store);
    trigger = λ a b c d e f w. w;
    error_text = error_text;
    marshal_record = marshal_record;
  }

  keep_update :
      (P : World → Type 0) (w : World) (id status : String) (key : Option String)
      → ((b : Batch)
          → P (record w { store = record w.store { batches = put id b w.store.batches } }))
      → P w
      → P (with_store w (update_batch_status id status key w.store)).0
  unfolding update_batch_status
  keep_update P w id status key changed same = elim (Option-cases (get id w.store.batches)) [
    | inl e ↦ rw (update_batch_status, e) same
    | inr (b, e) ↦ rw (update_batch_status, e) (changed (with_status status key b))
  ]

  Stored-Keeps : (r : Record) → Keeps world_deps (Stored r)
  unfolding insert_worm_index
  Stored-Keeps r = record {
    by_archive = λ id c w h. h;
    by_index = λ e w h. h;
    by_update = λ id status key w h. keep_update (Stored r) w id status key (λ b. h) h;
    by_trigger = λ a b c d e f w h. h;
  }

  module _ (seen : (fs : Files) → (disk fs).stat ≡ none)
      (fresh : (fs : Files) → GivesFreshName (disk fs) fs) where
    Archived-Keeps : (id : String) (c : Bytes) → Keeps world_deps (Archived id c)
    unfolding insert_worm_index put_archive
    Archived-Keeps id c = record {
      by_archive = λ id' c' w h. (
        h.0,
        write_immutable-keeps (disk w.files) (archive_path id') c' w.files (archive_path id) h.0 h.1
            (seen w.files) (fresh w.files),
        h.2,
      );
      by_index = λ e w h. h;
      by_update = λ id' status key w h. keep_update (Archived id c) w id' status key (λ b. h) h;
      by_trigger = λ a b c' d e f w h. h;
    }

    archived :
        (id : String) (c : Bytes) (w : World)
        → (archiving_world id c w).1 ≡ none
        → Archived id c (archiving_world id c w).0
    unfolding put_archive
    archived id c w e = elim (Option-cases (get (archive_path id) w.files)) [
      | inr (f, there) ↦
          let refused =
            ap (λ r. r.1)
              (present-write_immutable (disk w.files) (archive_path id) c w.files f (seen w.files)
                there) in
          cc
      | inl absent ↦
          elim (write_immutable_lem (disk w.files) (archive_path id) c w.files (λ k. absent)
            (fresh w.files)) [
              | inl (_, stored, _) ↦ (_, stored, refl)
              | inr (inl (x, refused, _)) ↦ cc
              | inr (inr (x, _, refused, _, _)) ↦ cc
            ]
    ]

    -- The in-memory store and the archive keep the promises that the tiering job relies on.
    pub world-IsArchiving : IsArchiving world_deps Stored Archived
    world-IsArchiving = record {
      lists = λ r rs w e h.
          subst (λ q. Occurs r q) (ok-injective e) (get_records_by_batch_id_lem r.id r w.store h).2;
      archives = archived;
      purges_only = λ id r w n h. delete_records_by_batch_id-keeps id r.id r w.store n h;
      purge_keeps = λ id batch_id c w h. h;
      keeps_stored = Stored-Keeps;
      keeps_archived = Archived-Keeps;
    }
