-- ===== src/Postgres/Consistency.antt =====
-- The calls of PostgresStore in internal/store/store.go and the keys of the tables.
use logs_tracker.Prelude.{
  ℕ, suc, ◌≡◌, ◌⊎◌, inl, inr, refl, ap, sym, subst, Bool-cases, Option-cases, Option, none, some,
  List, [], ◌∷◌, All-append,
}
use logs_tracker.Errors.{GoError, wrapped, ok, ok-injective, Result-cases}
use logs_tracker.Store.{Batch, Record, WormIndexEntry}
use logs_tracker.Postgres.{
  RecordRow, Tables, Columns, Faults, batch_key, record_key, unless_failed, find_batch,
  stored_batch, stored_record, insert_batch, insert_record, insert_records, create_batch,
}
use logs_tracker.Postgres.Changes.{
  rows_affected, update_batch_status, delete_records_by_batch_id, upsert, stored_entry,
  insert_entry, insert_worm_index,
}
use logs_tracker.Postgres.Keys.{HasUnique-snoc}
use logs_tracker.Postgres.Atomic.{
  insert_batch-ok, insert_record-ok, insert_records-cons, unless_failed-ok, create_batch_attempt,
}
use logs_tracker.Postgres.Commands.{Command, create, set_status, purge, index, step, run}
use logs_tracker.Postgres.Constraints.{
  HasBatch, IsConsistent, HasBatch-snoc, update_done-IsConsistent, HasUnique-delete_rows,
  All-delete_rows, HasUnique-upsert, All-upsert, All-implies,
}

module _ (columns : Columns) where
  insert_batch-IsConsistent :
      (b : Batch) (t t' : Tables)
      → IsConsistent t
      → insert_batch columns b t ≡ ok t'
      → IsConsistent t'
  unfolding stored_batch
  insert_batch-IsConsistent b t t' h e =
      let (absent, fits, after) = insert_batch-ok columns b t t' e in
      let more = HasBatch-snoc (stored_batch columns b) t.audit_batches in
      subst IsConsistent after (record {
        batch_keys =
            HasUnique-snoc batch_key (stored_batch columns b) t.audit_batches absent h.batch_keys;
        record_keys = h.record_keys;
        entry_keys = h.entry_keys;
        record_batches =
            All-implies _ _ t.audit_records (λ (r : RecordRow). more r.batch_id) h.record_batches;
        entry_batches =
            All-implies _ _ t.audit_worm_index (λ (x : WormIndexEntry). more x.batch_id)
              h.entry_batches;
      })

  insert_record-IsConsistent :
      (r : Record) (t t' : Tables)
      → IsConsistent t
      → insert_record columns r t ≡ ok t'
      → IsConsistent t'
  unfolding stored_record
  insert_record-IsConsistent r t t' h e =
      let (absent, parent, after) = insert_record-ok columns r t t' e in
      subst IsConsistent after (record {
        batch_keys = h.batch_keys;
        record_keys =
            HasUnique-snoc record_key (stored_record columns r) t.audit_records absent
              h.record_keys;
        entry_keys = h.entry_keys;
        record_batches =
            All-append _ t.audit_records (stored_record columns r ∷ []) h.record_batches
              (parent, tt);
        entry_batches = h.entry_batches;
      })

  insert_records-IsConsistent :
      (f : Faults) (i : ℕ) (rs : List Record) (t t' : Tables)
      → IsConsistent t
      → insert_records columns f i rs t ≡ ok t'
      → IsConsistent t'
  unfolding insert_records
  insert_records-IsConsistent f i [] t t' h e = subst IsConsistent (ok-injective e) h
  insert_records-IsConsistent f i (r ∷ rs) t t' h e =
      let (u, one, more) = insert_records-cons columns f i r rs t t' e in
      insert_records-IsConsistent f (suc i) rs u t' (insert_record-IsConsistent r t u h one) more

  create_batch-IsConsistent :
      (f : Faults) (b : Batch) (rs : List Record) (t : Tables)
      → IsConsistent t
      → IsConsistent (create_batch columns f b rs t).0
  create_batch-IsConsistent f b rs t h = elim (create_batch_attempt columns f b rs t) [
    | inl (e, same) ↦ subst (λ r. IsConsistent r.0) (sym same) h
    | inr (t', u, first, rest, w) ↦
        let whole =
          insert_records-IsConsistent f 0 rs t' u (insert_batch-IsConsistent b t t' h first) rest in
        elim w [
          | inl same ↦ subst (λ r. IsConsistent r.0) (sym same) whole
          | inr (e, lost, same) ↦ subst (λ r. IsConsistent r.0) (sym same) whole
        ]
  ]

  insert_entry-ok :
      (e : WormIndexEntry) (t t' : Tables)
      → insert_entry columns e t ≡ ok t'
      → HasBatch t.audit_batches e.batch_id
        × (record t { audit_worm_index = upsert (stored_entry columns e) t.audit_worm_index } ≡ t')
  unfolding insert_entry
  insert_entry-ok e t t' h = elim (Option-cases (find_batch e.batch_id t.audit_batches)) [
    | inl k ↦ cc (rw (insert_entry, k) at h)
    | inr (b, k) ↦ elim (Bool-cases (columns.fit_entry e)) [
      | inl fits ↦ ((b, k), ok-injective (rw (insert_entry, k, fits) at h))
      | inr misfit ↦ cc (rw (insert_entry, k, misfit) at h)
    ]
  ]

  -- The index after a call that returns no error, and the tables after one that returns an error.
  pub insert_worm_index_cases :
      (fault : Option GoError) (e : WormIndexEntry) (t : Tables)
      → (HasBatch t.audit_batches e.batch_id
          × (insert_worm_index columns fault e t ≡ (
            record t { audit_worm_index = upsert (stored_entry columns e) t.audit_worm_index },
            none,
          )))
        ⊎ ((x : GoError) × (insert_worm_index columns fault e t ≡ (t, some x)))
  unfolding insert_worm_index
  insert_worm_index_cases fault e t =
      elim (Result-cases (unless_failed fault (insert_entry columns e t))) [
        | inr (x, k) ↦
            inr (wrapped "failed to insert audit_worm_index" x, rw (insert_worm_index, k) refl)
        | inl (t', k) ↦
            let (parent, after) =
              insert_entry-ok e t t' (unless_failed-ok fault (insert_entry columns e t) k) in
            inl (parent, rw (insert_worm_index, k) (ap (λ u. (u, none)) (sym after)))
      ]

  insert_worm_index-IsConsistent :
      (fault : Option GoError) (e : WormIndexEntry) (t : Tables)
      → IsConsistent t
      → IsConsistent (insert_worm_index columns fault e t).0
  unfolding stored_entry
  insert_worm_index-IsConsistent fault e t h = elim (insert_worm_index_cases fault e t) [
    | inr (x, same) ↦ subst (λ r. IsConsistent r.0) (sym same) h
    | inl (parent, same) ↦
        subst (λ r. IsConsistent r.0) (sym same)
          (record {
            batch_keys = h.batch_keys;
            record_keys = h.record_keys;
            entry_keys = HasUnique-upsert (stored_entry columns e) t.audit_worm_index h.entry_keys;
            record_batches = h.record_batches;
            entry_batches =
                All-upsert _ (stored_entry columns e) t.audit_worm_index parent h.entry_batches;
          })
  ]

  pub step-IsConsistent :
      (c : Command) (t : Tables) → IsConsistent t → IsConsistent (step columns c t).0
  unfolding step update_batch_status delete_records_by_batch_id
  step-IsConsistent (create f b rs) t h = create_batch-IsConsistent f b rs t h
  step-IsConsistent (set_status (some x) id status key) t h = h
  step-IsConsistent (set_status none id status key) t h =
      update_done-IsConsistent id status key t (rows_affected id t.audit_batches) h
  step-IsConsistent (purge (some x) id) t h = h
  step-IsConsistent (purge none id) t h = record {
    batch_keys = h.batch_keys;
    record_keys = HasUnique-delete_rows id t.audit_records h.record_keys;
    entry_keys = h.entry_keys;
    record_batches = All-delete_rows _ id t.audit_records h.record_batches;
    entry_batches = h.entry_batches;
  }
  step-IsConsistent (index fault e) t h = insert_worm_index-IsConsistent fault e t h

  -- After any calls of the store, of which any may fail, no two rows of a table have one key, and
  -- the batch of each record and of each index entry is there, if this was so before.
  pub run-IsConsistent :
      (cs : List Command) (t : Tables) → IsConsistent t → IsConsistent (run columns cs t)
  unfolding run
  run-IsConsistent [] t h = h
  run-IsConsistent (c ∷ cs) t h = run-IsConsistent cs (step columns c t).0 (step-IsConsistent c t h)
