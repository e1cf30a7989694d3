-- ===== src/Postgres/Retry.antt =====
-- Closing a batch again (internal/batch/batcher.go) once PostgresStore (internal/store/store.go)
-- has its row.
use logs_tracker.Prelude.{
  ℕ, String, ◌≡◌, ◌≢◌, inl, inr, refl, ap, sym, ◌∙◌, subst, false, Bool-cases, Option, none, some,
  List, [], ◌∷◌, ◌++◌, length, leb,
}
use mathlib.Core.List.{append_assoc, append-nil}
use logs_tracker.Errors.{GoError, Result}
use logs_tracker.Source.{Position}
use logs_tracker.Merkle.{Bytes}
use logs_tracker.Merkle.Payload.{Runtime}
use logs_tracker.Store.{Batch, Record}
use logs_tracker.Batch.{
  CheckpointObject, Batcher, Services, Moment, batch_row, close_current_batch, add_record, on_timer,
  flush, close, set_bootstrap_mode, queue_alert, numbered,
}
use logs_tracker.Batch.Closing.{close_current_batch_cases}
use logs_tracker.Batch.Numbering.{buffered, buffered-nonempty}
use logs_tracker.Batch.Kept.{IsKept, keep_close}
use logs_tracker.Batch.Conservation.{Op, add, timer, flush_now, shut, queue, bootstrap, step, run}
use logs_tracker.Postgres.{Tables, Columns, Faults, batch_key, stored_batch, create_batch}
use logs_tracker.Postgres.Keys.{find_row-snoc}
use logs_tracker.Postgres.Constraints.{HasBatch}
use logs_tracker.Postgres.Atomic.{create_batch_attempt, create_batch_lem, insert_batch-ok}
use logs_tracker.Postgres.Session.{Session, in_postgres}

module _ (columns : Columns) where
  -- The row of a batch is not inserted twice.
  create_batch-twice :
      (f : Faults) (b : Batch) (rs : List Record) (t : Tables)
      → HasBatch t.audit_batches b.id
      → (e : GoError) × (create_batch columns f b rs t ≡ (t, some e))
  create_batch-twice f b rs t (c, there) = elim (create_batch_attempt columns f b rs t) [
    | inl n ↦ n
    | inr (t', u, first, rest, w) ↦
        let absent = (insert_batch-ok columns b t t' first).0 in
        let impossible : some c ≡ none = sym there ∙ absent in cc
  ]

  HasBatch-create_batch :
      (id : String) (f : Faults) (b : Batch) (rs : List Record) (t : Tables)
      → HasBatch t.audit_batches id
      → HasBatch (create_batch columns f b rs t).0.audit_batches id
  HasBatch-create_batch id f b rs t (c, e) =
      let more = find_row-snoc batch_key id (stored_batch columns b) c t.audit_batches e in
      elim (create_batch_lem columns f b rs t) [
        | inl (x, same) ↦ subst (λ r. HasBatch r.0.audit_batches id) (sym same) (c, e)
        | inr (inl same) ↦ subst (λ r. HasBatch r.0.audit_batches id) (sym same) (c, more)
        | inr (inr (x, lost, same)) ↦
            subst (λ r. HasBatch r.0.audit_batches id) (sym same) (c, more)
      ]

  module _ (rt : Runtime) (sign : Bytes → Result (Bytes × String))
      (marshal : CheckpointObject → Option Bytes) (faults : ℕ → Faults)
      (write : ℕ → String → Bytes → Option GoError) where
    abbrev services : Services Session
    services = in_postgres columns sign marshal faults write

    -- The store has the row of the open batch.
    abbrev pub IsStored : Batcher → Session → Type 0
    IsStored b s = HasBatch s.tables.audit_batches b.current_batch_id

    keeps_row : (id : String) → IsKept services (λ s. HasBatch s.tables.audit_batches id)
    keeps_row id = record {
      by_create = λ row rs s h. HasBatch-create_batch id (faults s.calls) row rs s.tables h;
      by_put = λ batch_id content s h. h;
      by_dispatch = λ a s h. h;
      by_closed = λ row s h. h;
    }

    -- A close of a batch that is stored fails, and changes nothing of the batcher.
    close-IsStored :
        (t : Moment) (b : Batcher) (s : Session)
        → b.records ≢ []
        → IsStored b s
        → (s' : Session) × (e : GoError) × (close_current_batch rt services t b s ≡ (b, s', some e))
          × IsStored b s'
    unfolding batch_row
    close-IsStored t b s n h = elim (close_current_batch_cases rt services t b s n) [
      | inl (s', e, same) ↦ (
        s',
        e,
        same,
        subst (λ r. IsStored b r.1) same
            (keep_close rt services _ (keeps_row b.current_batch_id) t b s h),
      )
      | inr w ↦
          let row = batch_row t b w.tree.root w.signature w.version in
          let (e, twice) = create_batch-twice (faults s.calls) row b.records s.tables h in
          let none_is : some e ≡ none = sym (ap (λ r. r.1) twice) ∙ ap (λ r. r.1) w.stores in cc
    ]

    -- The batch is the same one, and its buffer only grows.
    abbrev pub IsStuck : Batcher → Batcher → Session → Type 0
    IsStuck b b' s' =
        IsStored b' s'
        × (b'.current_batch_id ≡ b.current_batch_id)
        × ((more : List Record) × (b'.records ≡ b.records ++ more))

    grown-nonempty :
        (b : Batcher) (rs more : List Record) → b.records ≢ [] → rs ≡ b.records ++ more → rs ≢ []
    grown-nonempty b rs more n e empty = front b.records n (sym e ∙ empty)
      where
        front : (xs : List Record) → xs ≢ [] → xs ++ more ≡ [] → ⊥
        front [] k q = k refl
        front (x ∷ xs) k q = cc

    close-IsStuck :
        (t : Moment) (b : Batcher) (s : Session)
        → b.records ≢ []
        → IsStored b s
        → IsStuck b
            (close_current_batch rt services t b s).0
            (close_current_batch rt services t b s).1
    close-IsStuck t b s n h =
        let (s', e, same, there) = close-IsStored t b s n h in
        subst (λ r. IsStuck b r.0 r.1) (sym same) (there, refl, ([], sym (append-nil b.records)))

    add-IsStuck :
        (t : Moment) (r : Record) (pos : Position) (b : Batcher) (s : Session)
        → IsStored b s
        → IsStuck b (add_record rt services t r pos b s).0 (add_record rt services t r pos b s).1
    unfolding add_record
    add-IsStuck t r pos b s h =
        let b' = buffered r pos b in
        let grown : b'.records ≡ b.records ++ numbered b r ∷ [] = refl in
        elim (Bool-cases (leb b.cfg.max_events (length b'.records))) [
          | inr f ↦ rw f (h, refl, (numbered b r ∷ [], refl))
          | inl full ↦
              let (s', e, same, there) = close-IsStored t b' s (buffered-nonempty r pos b) h in
              rw full
                (subst (λ x. IsStuck b x.0 x.1) (sym same) (there, refl, (numbered b r ∷ [], refl)))
        ]

    step-IsStuck :
        (op : Op) (b : Batcher) (s : Session)
        → b.records ≢ []
        → IsStored b s
        → IsStuck b (step rt services op b s).0 (step rt services op b s).1
    unfolding step on_timer flush close set_bootstrap_mode queue_alert
    step-IsStuck (add t r pos) b s n h = add-IsStuck t r pos b s h
    step-IsStuck (timer t) b s n h = close-IsStuck t (record b { timer_set = false }) s n h
    step-IsStuck (flush_now t) b s n h = close-IsStuck t b s n h
    step-IsStuck (shut t) b s n h = close-IsStuck t (record b { timer_set = false }) s n h
    step-IsStuck (queue a) b s n h = (h, refl, ([], sym (append-nil b.records)))
    step-IsStuck (bootstrap is table) b s n h = (h, refl, ([], sym (append-nil b.records)))

    run-IsStuck :
        (ops : List Op) (b : Batcher) (s : Session)
        → b.records ≢ []
        → IsStored b s
        → IsStuck b (run rt services ops b s).0 (run rt services ops b s).1
    unfolding run
    run-IsStuck [] b s n h = (h, refl, ([], sym (append-nil b.records)))
    run-IsStuck (op ∷ ops) b s n h =
        let next = step rt services op b s in
        let (there, same, (more, grown)) = step-IsStuck op b s n h in
        let (at_end, same', (more', grown')) =
          run-IsStuck ops next.0 next.1 (grown-nonempty b next.0.records more n grown) there in
        (
          at_end,
          same' ∙ same,
          (
            more ++ more',
            grown' ∙ ap (λ rs. rs ++ more') grown ∙ append_assoc b.records more more',
          ),
        )

    -- Once PostgresStore has the row of a batch whose close failed after that, as it does when the
    -- checkpoint could not be written or the answer to the commit was lost, no close of the batch
    -- ever succeeds: after any calls of the batcher, whatever becomes of the failure, the batch is
    -- still open, its buffer has only grown, and closing it returns an error.
    pub run-never_closes :
        (ops : List Op) (t : Moment) (b : Batcher) (s : Session)
        → b.records ≢ []
        → IsStored b s
        → ((e : GoError) × ((close_current_batch rt services t
                (run rt services ops b s).0
                (run rt services ops b s).1).2
              ≡ some e))
          × ((run rt services ops b s).0.current_batch_id ≡ b.current_batch_id)
          × ((more : List Record) × ((run rt services ops b s).0.records ≡ b.records ++ more))
    run-never_closes ops t b s n h =
        let after = run rt services ops b s in
        let (there, same, (more, grown)) = run-IsStuck ops b s n h in
        let (s', e, failed, still) =
          close-IsStored t after.0 after.1 (grown-nonempty b after.0.records more n grown) there in
        ((e, ap (λ r. r.2) failed), same, (more, grown))
