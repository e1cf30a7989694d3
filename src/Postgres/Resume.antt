-- ===== src/Postgres/Resume.antt =====
-- The checkpoint that PostgresStore gives after internal/batch/batcher.go closed a batch into it.
use logs_tracker.Prelude.{
  false, ℕ, ◌<◌, String, ◌≡◌, ◌≢◌, refl, ap, sym, ◌∙◌, inl, inr, none, some, List, [], ◌∷◌, ◌++◌,
  All, leb, Option, arith,
}
use logs_tracker.Errors.{GoError, Result, ok}
use logs_tracker.Merkle.{Bytes}
use logs_tracker.Merkle.Payload.{Runtime}
use logs_tracker.Store.{Batch, Record}
use logs_tracker.Batch.{CheckpointObject, Batcher, Moment, batch_row, close_current_batch}
use logs_tracker.Batch.Closing.{close_current_batch_cases}
use logs_tracker.Postgres.{Tables, Columns, Faults, stored_batch, create_batch}
use logs_tracker.Postgres.Queries
use logs_tracker.Postgres.Queries.{order_by, insert_row, closed_last, first_checkpoint}
use logs_tracker.Postgres.Atomic.{create_batch_lem}
use logs_tracker.Postgres.Session.{Session, in_postgres}
use logs_tracker.Postgres.Verified.{Success-tables}

-- A batch that closed after all others is the first row of the query.
order_by-newest :
    (b : Batch) (rows : List Batch)
    → All (λ (a : Batch). a.closed_at < b.closed_at) rows
    → order_by closed_last (rows ++ b ∷ []) ≡ b ∷ order_by closed_last rows
unfolding order_by insert_row
order_by-newest b [] h = refl
order_by-newest b (a ∷ rows) h =
    let older : leb b.closed_at a.closed_at ≡ false = (let lt = h.0 in ground arith) in
    ap (insert_row closed_last a) (order_by-newest b rows h.1) ∙ rw older refl

module _ (columns : Columns) (rt : Runtime) (sign : Bytes → Result (Bytes × String))
    (marshal : CheckpointObject → Option Bytes) (faults : ℕ → Faults)
    (write : ℕ → String → Bytes → Option GoError) where
  created-checkpoint :
      (f : Faults) (row : Batch) (rs : List Record) (t : Tables)
      → (create_batch columns f row rs t).1 ≡ none
      → stored_batch columns row ≡ row
      → All (λ (a : Batch). a.closed_at < row.closed_at) t.audit_batches
      → Queries.get_latest_checkpoint none (create_batch columns f row rs t).0
        ≡ ok (row.binlog_file, row.binlog_position)
  unfolding Queries.get_latest_checkpoint first_checkpoint
  created-checkpoint f row rs t n exact older = elim (create_batch_lem columns f row rs t) [
    | inl (e, same) ↦ (let failed = sym (ap (λ x. x.1) same) ∙ n in cc)
    | inr (inr (e, lost, same)) ↦ (let failed = sym (ap (λ x. x.1) same) ∙ n in cc)
    | inr (inl same) ↦
        ap (λ x. Queries.get_latest_checkpoint none x.0) same
        ∙ ap (λ b. first_checkpoint (order_by closed_last (t.audit_batches ++ b ∷ []))) exact
        ∙ ap first_checkpoint (order_by-newest row t.audit_batches older)
  ]

  -- After a batch is closed that is newer than all others, its last position is the checkpoint.
  pub close-checkpoint :
      (t : Moment) (b : Batcher) (s : Session)
      → (close_current_batch rt (in_postgres columns sign marshal faults write) t b s).2 ≡ none
      → b.records ≢ []
      → ((root signature : Bytes) (version : String)
          → stored_batch columns (batch_row t b root signature version)
            ≡ batch_row t b root signature version)
      → All (λ (a : Batch). a.closed_at < t.now) s.tables.audit_batches
      → Queries.get_latest_checkpoint none
          (close_current_batch rt (in_postgres columns sign marshal faults write) t b s).1.tables
        ≡ ok (b.last_position.file, b.last_position.position)
  unfolding batch_row
  close-checkpoint t b s n nonempty exact older =
      elim (close_current_batch_cases rt (in_postgres columns sign marshal faults write) t b s
        nonempty) [
          | inl f ↦ let failed : some f.1 ≡ none = sym (ap (λ u. u.2) f.2) ∙ n in cc
          | inr w ↦
              let row = batch_row t b w.tree.root w.signature w.version in
              ap (Queries.get_latest_checkpoint none)
                (Success-tables columns rt sign marshal faults write t b s _ w)
              ∙ created-checkpoint (faults s.calls) row b.records s.tables (ap (λ x. x.1) w.stores)
                  (exact w.tree.root w.signature w.version) older
        ]
