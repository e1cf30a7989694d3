-- ===== src/Postgres/Agreement.antt =====
-- PostgresStore and MemoryStore, both of internal/store/store.go, after the same calls.
use mathlib.Core.Option
use logs_tracker.Prelude.{
  String, ◌≡◌, ◌≢◌, ◌⊎◌, inl, inr, refl, ap, sym, ◌∙◌, Option, none, some, Option-cases, List, [],
  ◌∷◌, All, map,
}
use logs_tracker.Prelude.Dict.{Dict, get}
use logs_tracker.Errors.{GoError, not_found, ok}
use logs_tracker.Store
use logs_tracker.Store.{Batch, Record, WormIndexEntry, MemoryStore, put_records, with_status}
use logs_tracker.Postgres.{
  RecordRow, Tables, Columns, Faults, Commit, done, refused, unanswered, batch_key, find_batch,
  stored_batch, stored_record, insert_batch, insert_records,
}
use logs_tracker.Postgres.Changes.{update_row, rows_affected, update_done, upsert, stored_entry}
use logs_tracker.Postgres
use logs_tracker.Postgres.Changes
use logs_tracker.Postgres.Atomic.{create_batch_attempt, insert_batch-ok, written}
use logs_tracker.Postgres.Commands.{
  Command, create, set_status, purge, index, step, run, memory_step, memory_run, succeeded,
}
use logs_tracker.Postgres.Constraints.{IsConsistent}
use logs_tracker.Postgres.Consistency.{insert_worm_index_cases, step-IsConsistent}
use logs_tracker.Postgres.View.{
  view, keyed_batches, keyed_records, keyed_entries, get-keyed, keyed-update, rows_affected-absent,
  rows_affected-found, keyed-delete_rows, keyed-upsert, kept_record, keyed-insert_batch,
  keyed-insert_records,
}

same_store :
    {a b : Dict Batch} {c d : Dict Record} {x y : Dict WormIndexEntry}
    → a ≡ b
    → c ≡ d
    → x ≡ y
    → Path MemoryStore
        (record { batches = a; records = c; worm_index = x })
        (record { batches = b; records = d; worm_index = y })
same_store p q r = λ i. record { batches = p i; records = q i; worm_index = r i }

module _ (columns : Columns) where
  -- The call with the values that it writes as the columns keep them: JSONB and TIMESTAMPTZ have
  -- their own form of a value.
  unfoldable pub as_kept : Command → Command
  as_kept (create f b rs) = create f (stored_batch columns b) (map (kept_record columns) rs)
  as_kept (set_status fault id status key) = set_status fault id status key
  as_kept (purge fault id) = purge fault id
  as_kept (index fault e) = index fault (stored_entry columns e)

  -- A commit that is done is answered.
  abbrev pub IsAnswered : Command → Type 0
  IsAnswered (create f b rs) = (e : GoError) → f.commit ≢ unanswered e
  IsAnswered (set_status fault id status key) = Unit
  IsAnswered (purge fault id) = Unit
  IsAnswered (index fault e) = Unit

  -- A call that returns an error changes nothing, and another does what MemoryStore does with the
  -- values as the columns keep them.
  abbrev pub Agrees : Command → Tables → Tables × Option GoError → Type 0
  Agrees c t result =
      ((result.1 ≡ none) × (view result.0 ≡ memory_step (as_kept c) (view t)))
      ⊎ ((e : GoError) × (result ≡ (t, some e)))

  -- What a batch that is written adds to the view.
  pub written-view :
      (f : Faults) (b : Batch) (rs : List Record) (t t' u : Tables)
      → insert_batch columns b t ≡ ok t'
      → insert_records columns f 0 rs t' ≡ ok u
      → view u ≡ Store.create_batch (stored_batch columns b) (map (kept_record columns) rs) (view t)
  unfolding Store.create_batch stored_batch
  written-view f b rs t t' u first rest =
      let (absent, fits, after) = insert_batch-ok columns b t t' first in
      let whole = written columns f b rs t t' u first rest in
      same_store
        (ap (λ (v : Tables). keyed_batches v.audit_batches) whole
          ∙ keyed-insert_batch columns b t.audit_batches absent)
        (keyed-insert_records columns f 0 rs t' u rest
          ∙ ap
              (λ (v : Tables).
                put_records (map (kept_record columns) rs) (keyed_records v.audit_records))
              (sym after))
        (ap (λ (v : Tables). keyed_entries v.audit_worm_index) whole)

  create_batch-Agrees :
      (f : Faults) (b : Batch) (rs : List Record) (t : Tables)
      → IsAnswered (create f b rs)
      → Agrees (create f b rs) t (Postgres.create_batch columns f b rs t)
  unfolding memory_step as_kept
  create_batch-Agrees f b rs t answered = elim (create_batch_attempt columns f b rs t) [
    | inl n ↦ inr n
    | inr (t', u, first, rest, inr (e, lost, same)) ↦ absurd (answered e lost)
    | inr (t', u, first, rest, inl same) ↦
        inl (ap (λ r. r.1) same, ap (λ r. view r.0) same ∙ written-view f b rs t t' u first rest)
  ]

  set_status-Agrees :
      (id status : String) (key : Option String) (t : Tables)
      → IsConsistent t
      → Agrees (set_status none id status key) t (
          update_done t
            (map (update_row id status key) t.audit_batches)
            (rows_affected id t.audit_batches))
  unfolding memory_step as_kept Store.update_batch_status update_done
  set_status-Agrees id status key t h = elim (Option-cases (find_batch id t.audit_batches)) [
    | inl e ↦ inr (not_found, ap (update_done t _) (rows_affected-absent id t.audit_batches e))
    | inr (b, e) ↦
        let (n, some_row) = rows_affected-found id b t.audit_batches e in
        let there : get id (keyed_batches t.audit_batches) ≡ some b =
          get-keyed batch_key (λ c. c) id t.audit_batches ∙ ap (Option.map (λ c. c)) e in
        let after = keyed-update id status key b t.audit_batches h.batch_keys e in
        inl (
          ap (λ k. (update_done t (map (update_row id status key) t.audit_batches) k).1) some_row,
          ap (λ k. view (update_done t (map (update_row id status key) t.audit_batches) k).0)
                some_row
              ∙ rw (memory_step, as_kept, Store.update_batch_status, there)
                  (same_store after refl refl),
        )
  ]

  index-Agrees :
      (fault : Option GoError) (e : WormIndexEntry) (t : Tables)
      → Agrees (index fault e) t (Changes.insert_worm_index columns fault e t)
  unfolding memory_step as_kept Store.insert_worm_index stored_entry
  index-Agrees fault e t = elim (insert_worm_index_cases columns fault e t) [
    | inr n ↦ inr n
    | inl (parent, same) ↦ inl (
      ap (λ r. r.1) same,
      ap (λ r. view r.0) same
          ∙ same_store refl refl (keyed-upsert (stored_entry columns e) t.audit_worm_index),
    )
  ]

  step-Agrees :
      (c : Command) (t : Tables) → IsConsistent t → IsAnswered c → Agrees c t (step columns c t)
  unfolding step Changes.update_batch_status Changes.delete_records_by_batch_id memory_step as_kept
      Store.delete_records_by_batch_id
  step-Agrees (create f b rs) t h plain = create_batch-Agrees f b rs t plain
  step-Agrees (set_status (some x) id status key) t h plain = inr (_, refl)
  step-Agrees (set_status none id status key) t h plain = set_status-Agrees id status key t h
  step-Agrees (purge (some x) id) t h plain = inr (_, refl)
  step-Agrees (purge none id) t h plain =
      inl (refl, same_store refl (keyed-delete_rows id t.audit_records) refl)
  step-Agrees (index fault e) t h plain = index-Agrees fault e t

  pub run-Agrees :
      (cs : List Command) (t : Tables)
      → IsConsistent t
      → All IsAnswered cs
      → view (run columns cs t) ≡ memory_run (map as_kept (succeeded columns cs t)) (view t)
  unfolding run succeeded memory_run
  run-Agrees [] t h plain = refl
  run-Agrees (c ∷ cs) t h plain =
      let ih = run-Agrees cs (step columns c t).0 (step-IsConsistent columns c t h) plain.1 in
      elim (step-Agrees c t h plain.0) [
        | inl (fine, agrees) ↦
            ih
            ∙ rw (succeeded, fine)
                (ap (memory_run (map as_kept (succeeded columns cs (step columns c t).0))) agrees)
        | inr (e, same) ↦
            let failed : (step columns c t).1 ≡ some e = ap (λ r. r.1) same in
            ih
            ∙ rw (succeeded, failed)
                (ap
                  (λ r.
                    memory_run (map as_kept (succeeded columns cs (step columns c t).0)) (view r.0))
                  same)
      ]
