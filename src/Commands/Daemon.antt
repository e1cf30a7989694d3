-- ===== src/Commands/Daemon.antt =====
-- cmd/daemon/main.go: the parts are put together, tables are bootstrapped, and the stream is processed
-- until it ends. `S` is the state of the batcher's services, with the store, and `D` the database's.
-- The dispatcher of the pipeline is a state beside the batcher's services, as in Pipeline.
pub mod Audited
pub mod Restart
use logs_tracker.Prelude.{
  ℕ, String, Bool, not, ◌&&◌, Option, none, some, List, [], ◌∷◌, str_eq, if◌then◌else◌,
}
use logs_tracker.Errors.{GoError, Result, ok, err}
use logs_tracker.Source.{Position, Transaction}
use logs_tracker.Merkle.Payload.{Runtime}
use logs_tracker.Config.{
  TableConfig, Manager, ScannedRow, new_manager, get_all_configs, load_from_db,
}
use logs_tracker.Alerting.{Alert, Dispatcher, new_dispatcher}
use logs_tracker.Signing.{LocalKeyManager, Crypto, Randomness}
use logs_tracker.Snapshot.{Codec}
use logs_tracker.Batch.{BatchConfig, Services, Moment, new_batcher}
use logs_tracker.Bootstrap.{Runner, Answers, RowDraw, RunDraw, bootstrap_table}
use logs_tracker.Pipeline.{Draw, State, run}
use logs_tracker.Binlog.Reader.{Reader, no_position, start_at}
use logs_tracker.Binlog.Start.{resume_from, start_position}
use logs_tracker.Commands.{Files, or_default, load_key, new_key}

pub record Flags : Type 0 where
  pub keyfile : String
  pub passphrase : String
  pub webhook_url : String
  pub batch_config : BatchConfig

abbrev pub Stream : Type 0
Stream = List ((ℕ → Draw) × Transaction)

-- What a start reads: the errors of opening, the answers of the databases, the clock, fresh
-- identifiers, and the transactions that the binlog has after a position.
pub record World (S D : Type 0) : Type 0 where
  pub runtime : Runtime
  pub crypto : Crypto
  pub random : Randomness
  pub keyfiles : Files
  pub codec_of : LocalKeyManager → Codec
  pub services_of : LocalKeyManager → Services S
  pub archive_error : Option GoError
  pub postgres_error : Option GoError
  pub mysql_error : Option GoError
  pub latest_checkpoint : S → Result (String × ℕ)
  pub unmarshal_columns : String → List String
  pub config_rows : Result (List (Result (ScannedRow unmarshal_columns)))
  pub batch_id : String
  pub now : ℕ
  pub update_status : String → String → D → D × Option GoError
  pub run_draw : String → RunDraw
  pub row_draws : String → ℕ → RowDraw
  pub answers : String → Answers
  pub stream : String × ℕ → Result Stream
  pub end : Moment

-- How the program ends: `fatal` is `log.Fatalf`.
pub data Ending (S : Type 0) : Type 0 where
  fatal : String → GoError → Ending S
  stopped : State S → Ending S

unfoldable pub needs_bootstrap : TableConfig → Bool
needs_bootstrap cfg =
    cfg.enabled && (cfg.bootstrap_required && str_eq cfg.bootstrap_status "not_started")

-- The reader that resumes from a checkpoint, if there is one.
unfoldable pub resumed : String × ℕ → Reader
resumed (file, position) =
    if str_eq file ""
    then start_at no_position
    else resume_from (record { file = file; position = position; gtid = "" }) (start_at no_position)

-- The sinks beside the memory sink.
unfoldable pub sinks : String → List (List Alert)
sinks url = if str_eq url "" then [] else [] ∷ []

module _ {S D : Type 0} (w : World S D) where
  unfoldable pub key_or_new :
      String → String → Result LocalKeyManager → Result (Files × LocalKeyManager)
  key_or_new path passphrase (ok m) = ok (w.keyfiles, m)
  key_or_new path passphrase (err e) = new_key w.crypto w.random w.keyfiles path passphrase "v1"

  unfoldable pub start_key : Flags → Result (Files × LocalKeyManager)
  start_key f =
      let passphrase = or_default "dev-insecure-passphrase" f.passphrase in
      key_or_new f.keyfile passphrase (load_key w.crypto w.keyfiles f.keyfile passphrase)

  -- Step 9: the error of a table is logged.
  unfoldable pub bootstrap_all : LocalKeyManager → List TableConfig → Runner S D → Runner S D
  bootstrap_all m [] r = r
  bootstrap_all m (cfg ∷ cfgs) r =
      let table = cfg.table_name in
      let r' =
        bootstrap_table w.runtime (w.codec_of m) (w.services_of m) w.update_status
          (w.run_draw table) table (w.row_draws table) (w.answers table) r in
      bootstrap_all m cfgs (if needs_bootstrap cfg then r'.0 else r)

  -- Steps 6 to 8: the configuration, as far as it loads, the dispatcher and the batcher.
  unfoldable pub assembled : Flags → S → D → Runner S D
  assembled f s db = record {
    config_mgr = (load_from_db w.unmarshal_columns w.config_rows new_manager).0;
    dispatcher = some (new_dispatcher 300_000_000_000 (sinks f.webhook_url));
    batcher = new_batcher f.batch_config w.batch_id w.now;
    services = s;
    db = db;
  }

  unfoldable pub bootstrapped : LocalKeyManager → Flags → S → D → State S
  bootstrapped m f s db =
      let r = assembled f s db in
      let r' = bootstrap_all m (get_all_configs r.config_mgr) r in
      record {
        config_mgr = r'.config_mgr;
        dispatcher = r'.dispatcher;
        batcher = r'.batcher;
        services = r'.services;
      }

  unfoldable pub ended : State S × Option GoError → Ending S
  ended (st, some e) = fatal "Daemon run exited with error" e
  ended (st, none) = stopped st

  -- Step 11: `Run`.
  unfoldable pub piped : LocalKeyManager → State S → Result Stream → Ending S
  piped m st (err e) = fatal "Daemon run exited with error" e
  piped m st (ok txs) =
      ended (run w.runtime (w.codec_of m) (w.services_of m) w.unmarshal_columns w.end txs st)

  unfoldable pub with_mysql :
      LocalKeyManager → Flags → S → D → String × ℕ → Option GoError → Ending S
  with_mysql m f s db last (some e) = fatal "Failed to open MySQL connection" e
  with_mysql m f s db last none =
      piped m (bootstrapped m f s db) (w.stream (start_position (resumed last)))

  unfoldable pub with_checkpoint : LocalKeyManager → Flags → S → D → Result (String × ℕ) → Ending S
  with_checkpoint m f s db (err e) = fatal "Failed to query latest checkpoint" e
  with_checkpoint m f s db (ok last) = with_mysql m f s db last w.mysql_error

  unfoldable pub with_postgres : LocalKeyManager → Flags → S → D → Option GoError → Ending S
  with_postgres m f s db (some e) = fatal "Failed to open Postgres connection" e
  with_postgres m f s db none = with_checkpoint m f s db (w.latest_checkpoint s)

  unfoldable pub with_archive : LocalKeyManager → Flags → S → D → Option GoError → Ending S
  with_archive m f s db (some e) = fatal "Failed to initialize WORM archive directory" e
  with_archive m f s db none = with_postgres m f s db w.postgres_error

  unfoldable pub with_key : Flags → S → D → Result (Files × LocalKeyManager) → Ending S
  with_key f s db (err e) = fatal "Failed to initialize keyfile" e
  with_key f s db (ok (files, m)) = with_archive m f s db w.archive_error

  unfoldable pub daemon : Flags → S → D → Ending S
  daemon f s db = with_key f s db (start_key f)
