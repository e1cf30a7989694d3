-- ===== src/Commands/Daemon/Restart.antt =====
-- Where cmd/daemon/main.go goes on after the batcher closed its last batch into PostgresStore.
use logs_tracker.Prelude.{
  ℕ, ◌<◌, String, ◌≡◌, ◌≢◌, refl, ap, ◌∙◌, inl, inr, none, [], All, Bool-cases, Option, str_eq,
  eq_iff, lt→ltb,
}
use logs_tracker.Errors.{GoError, Result, ok}
use logs_tracker.Source.{Position}
use logs_tracker.Merkle.{Bytes}
use logs_tracker.Merkle.Payload.{Runtime}
use logs_tracker.Store.{Batch}
use logs_tracker.Signing.{LocalKeyManager}
use logs_tracker.Batch.{CheckpointObject, Batcher, Moment, batch_row, close_current_batch}
use logs_tracker.Bootstrap.{bootstrap_position}
use logs_tracker.Postgres.{Columns, Faults, stored_batch}
use logs_tracker.Postgres.Queries
use logs_tracker.Postgres.Session.{Session, in_postgres}
use logs_tracker.Postgres.Resume.{close-checkpoint}
use logs_tracker.Binlog.Start.{resume_from, start_position}
use logs_tracker.Commands.{Files}
use logs_tracker.Commands.Daemon.{
  Flags, World, resumed, start_key, bootstrapped, piped, with_mysql, with_checkpoint, with_postgres,
  with_archive, with_key, daemon,
}

start_position-resumed :
    (file : String) (position : ℕ)
    → file ≢ ""
    → 0 < position
    → start_position (resumed (file, position)) ≡ (file, position)
unfolding start_position resumed resume_from
start_position-resumed file position named set = elim (Bool-cases (str_eq file "")) [
  | inl t ↦ absurd (named ((eq_iff file "").0 t))
  | inr f ↦ rw (f, lt→ltb 0 position set, f) refl
]

start_position-bootstrap : start_position (resumed ("bootstrap", 0)) ≡ ("", 0)
unfolding start_position resumed resume_from
start_position-bootstrap = refl

module _ {D : Type 0} (w : World Session D) (f : Flags) (m : LocalKeyManager) (files : Files)
    (unlocked : start_key w f ≡ ok (files, m)) (archive : w.archive_error ≡ none)
    (postgres : w.postgres_error ≡ none) (mysql : w.mysql_error ≡ none)
    (asks : (s : Session)
      → w.latest_checkpoint s ≡ Queries.get_latest_checkpoint none s.tables) where
  daemon-checkpoint :
      (s : Session) (db : D) (last : String × ℕ)
      → Queries.get_latest_checkpoint none s.tables ≡ ok last
      → daemon w f s db
        ≡ piped w m (bootstrapped w m f s db) (w.stream (start_position (resumed last)))
  unfolding daemon with_key with_archive with_postgres with_checkpoint with_mysql
  daemon-checkpoint s db last e =
      ap (with_key w f s db) unlocked
      ∙ ap (with_archive w m f s db) archive
      ∙ ap (with_postgres w m f s db) postgres
      ∙ ap (with_checkpoint w m f s db) (asks s ∙ e)
      ∙ ap (with_mysql w m f s db last) mysql

  module _ (rt : Runtime) (columns : Columns) (sign : Bytes → Result (Bytes × String))
      (marshal : CheckpointObject → Option Bytes) (faults : ℕ → Faults)
      (write : ℕ → String → Bytes → Option GoError) (t : Moment) (b : Batcher) (s : Session)
      (closes : (close_current_batch rt (in_postgres columns sign marshal faults write) t b s).2
        ≡ none)
      (nonempty : b.records ≢ [])
      (exact : (root signature : Bytes) (version : String)
        → stored_batch columns (batch_row t b root signature version)
          ≡ batch_row t b root signature version)
      (older : All (λ (a : Batch). a.closed_at < t.now) s.tables.audit_batches) where
    abbrev pub after : Session
    after = (close_current_batch rt (in_postgres columns sign marshal faults write) t b s).1

    daemon-after :
        (db : D)
        → daemon w f after db
          ≡ piped w m
              (bootstrapped w m f after db)
              (w.stream (start_position (resumed (b.last_position.file, b.last_position.position))))
    daemon-after db =
        daemon-checkpoint after db (b.last_position.file, b.last_position.position)
          (close-checkpoint columns rt sign marshal faults write t b s closes nonempty exact older)

    -- If the newest batch closed over PostgresStore without an error, and the columns keep its row,
    -- then a daemon that starts on the tables, where its key is unlocked or made, everything opens
    -- and the query of the checkpoint succeeds, streams from the batch's last position, if that has
    -- a file and a number.
    pub daemon-resumes :
        (db : D)
        → b.last_position.file ≢ ""
        → 0 < b.last_position.position
        → daemon w f after db
          ≡ piped w m
              (bootstrapped w m f after db)
              (w.stream (b.last_position.file, b.last_position.position))
    daemon-resumes db named set =
        daemon-after db
        ∙ ap (λ p. piped w m (bootstrapped w m f after db) (w.stream p))
            (start_position-resumed b.last_position.file b.last_position.position named set)

    -- Under the same conditions, if the batch's last position is that of a bootstrap, the daemon
    -- streams from the empty position, whatever earlier batches had reached.
    pub daemon-forgets :
        (db : D)
        → b.last_position ≡ bootstrap_position
        → daemon w f after db ≡ piped w m (bootstrapped w m f after db) (w.stream ("", 0))
    daemon-forgets db bootstrap =
        daemon-after db
        ∙ ap
            (λ (p : Position).
              piped w m (bootstrapped w m f after db)
                (w.stream (start_position (resumed (p.file, p.position)))))
            bootstrap
        ∙ ap (λ p. piped w m (bootstrapped w m f after db) (w.stream p)) start_position-bootstrap
