-- ===== src/Commands/Daemon/Audited.antt =====
-- What cmd/daemon/main.go has stored when it stops.
use logs_tracker.Prelude.{
  ℕ, String, ◌≡◌, refl, ap, sym, ◌∙◌, subst, Option, none, some, ◌∷◌, ◌++◌, get_elem?,
}
use logs_tracker.Errors.{GoError, ok}
use logs_tracker.Source.{RowChange, Transaction}
use logs_tracker.Config.{TableConfig}
use logs_tracker.Signing.{LocalKeyManager}
use logs_tracker.Batch.Conservation.{IsDurable}
use logs_tracker.Pipeline.{Draw, State, update_configs, audit_config, process_transaction, run}
use logs_tracker.Pipeline.Stored.{state_after, run-Has}
use logs_tracker.Binlog.Start.{start_position}
use logs_tracker.Commands.{Files}
use logs_tracker.Commands.Daemon.{
  Flags, Stream, World, stopped, resumed, start_key, bootstrapped, ended, piped, with_mysql,
  with_checkpoint, with_postgres, with_archive, with_key, daemon,
}

module _ {S D : Type 0} (w : World S D) (f : Flags) (m : LocalKeyManager) (s : S) (db : D)
    (st : State S) where
  ended-stopped :
      (r : State S × Option GoError) → ended w r ≡ stopped st → (r.0 ≡ st) × (r.1 ≡ none)
  unfolding ended
  ended-stopped (u, some e) h = cc
  ended-stopped (u, none) h = (cc, refl)

  with_mysql-stopped :
      (last : String × ℕ) (o : Option GoError)
      → with_mysql w m f s db last o ≡ stopped st
      → piped w m (bootstrapped w m f s db) (w.stream (start_position (resumed last))) ≡ stopped st
  unfolding with_mysql
  with_mysql-stopped last (some e) h = cc
  with_mysql-stopped last none h = h

  with_postgres-stopped :
      (o : Option GoError)
      → with_postgres w m f s db o ≡ stopped st
      → with_checkpoint w m f s db (w.latest_checkpoint s) ≡ stopped st
  unfolding with_postgres
  with_postgres-stopped (some e) h = cc
  with_postgres-stopped none h = h

  with_archive-stopped :
      (o : Option GoError)
      → with_archive w m f s db o ≡ stopped st
      → with_postgres w m f s db w.postgres_error ≡ stopped st
  unfolding with_archive
  with_archive-stopped (some e) h = cc
  with_archive-stopped none h = h

  -- A daemon that stops has processed the whole stream without an error of the last close.
  daemon-run :
      (files : Files) (last : String × ℕ) (txs : Stream)
      → start_key w f ≡ ok (files, m)
      → w.latest_checkpoint s ≡ ok last
      → w.stream (start_position (resumed last)) ≡ ok txs
      → daemon w f s db ≡ stopped st
      → (let result =
            run w.runtime
              (w.codec_of m)
              (w.services_of m)
              w.unmarshal_columns
              w.end
              txs
              (bootstrapped w m f s db) in
          (result.0 ≡ st) × (result.1 ≡ none))
  unfolding daemon with_key with_checkpoint piped
  daemon-run files last txs unlocked checkpoint streams h =
      let keyed = sym (ap (with_key w f s db) unlocked) ∙ h in
      let opened =
        with_postgres-stopped w.postgres_error (with_archive-stopped w.archive_error keyed) in
      let asked = sym (ap (with_checkpoint w m f s db) checkpoint) ∙ opened in
      ended-stopped _ (
        sym (ap (piped w m (bootstrapped w m f s db)) streams)
        ∙ with_mysql-stopped last w.mysql_error asked)

  -- If the daemon stops of itself, over a store that keeps what it has taken without an error, then
  -- the store has, for each transaction of the stream from the latest checkpoint that was processed
  -- without an error and each of its changes that is to be audited by then, the record under the
  -- identifier drawn for the change.
  pub daemon-Has :
      (files : Files) (last : String × ℕ) (Has : String → S → Type 0)
      (durable : IsDurable (w.services_of m) Has) (before rest : Stream) (draws : ℕ → Draw)
      (tx : Transaction) (i : ℕ) (c : RowChange) (cfg : TableConfig)
      → start_key w f ≡ ok (files, m)
      → w.latest_checkpoint s ≡ ok last
      → w.stream (start_position (resumed last)) ≡ ok (before ++ (draws, tx) ∷ rest)
      → get_elem? tx.changes i ≡ some c
      → audit_config c (
          update_configs w.unmarshal_columns tx.changes
            (state_after w.runtime
              (w.codec_of m)
              (w.services_of m)
              w.unmarshal_columns
              before
              (bootstrapped w m f s db)).config_mgr)
        ≡ some cfg
      → (process_transaction w.runtime
          (w.codec_of m)
          (w.services_of m)
          w.unmarshal_columns
          draws
          tx
          (state_after w.runtime
            (w.codec_of m)
            (w.services_of m)
            w.unmarshal_columns
            before
            (bootstrapped w m f s db))).1
        ≡ none
      → daemon w f s db ≡ stopped st
      → Has (draws i).record_id st.services
  daemon-Has files last Has durable before rest draws tx i c cfg unlocked checkpoint streams at
        audited taken h =
      let (same, n) =
        daemon-run files last (before ++ (draws, tx) ∷ rest) unlocked checkpoint streams h in
      subst (λ (u : State S). Has (draws i).record_id u.services) same
        (run-Has w.runtime (w.codec_of m) (w.services_of m) w.unmarshal_columns Has durable w.end
          before rest draws tx (bootstrapped w m f s db) i c cfg at audited taken n)
