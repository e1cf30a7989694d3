-- ===== src/Bootstrap.antt =====
-- internal/bootstrap/bootstrap.go: the rows that a table has when it comes under audit become records
-- of a signed batch. What the database answers is an input, and its state is a parameter.
pub mod Complete
use logs_tracker.Prelude.{ℕ, suc, String, append, true, false, Option, none, some, List, [], ◌∷◌}
use logs_tracker.Prelude.Dict.{put}
use logs_tracker.Errors.{GoError, failure, wrapped, Result, ok, err}
use logs_tracker.Source.{insert, Value, text, bytes, Row, RowChange, Position}
use logs_tracker.Config.{TableConfig, Manager, get_table_config, set_table_config}
use logs_tracker.Attribution.{ActorAttribution}
use logs_tracker.Alerting.{Dispatcher, Request, trigger}
use logs_tracker.Store.{Record}
use logs_tracker.Snapshot.{Codec, build_record}
use logs_tracker.Merkle.Payload.{Runtime}
use logs_tracker.Batch.{Batcher, Services, Moment, Closed, add_record, flush, set_bootstrap_mode}

-- The dispatcher may be nil. `S` is the state of the batcher's services, `D` the database's.
pub record Runner (S D : Type 0) : Type 0 where
  pub config_mgr : Manager
  pub dispatcher : Option Dispatcher
  pub batcher : Batcher
  pub services : S
  pub db : D

-- What the transaction's calls return, and the rows that `rows.Next` yields, as `Scan` returns them.
pub record Answers : Type 0 where
  pub begin : Option GoError
  pub query : Option GoError
  pub columns : Result (List String)
  pub rows : List (Result (List Value))

-- What the handling of one row, or the rest, reads of the clock and of `uuid.New`.
pub record RowDraw : Type 0 where
  pub record_id : String
  pub now : ℕ
  pub moment : Moment

-- An alert's identifier and times, the error's text, and the flush's moment.
pub record RunDraw : Type 0 where
  pub alert_id : String
  pub alert_at : ℕ
  pub error_text : GoError → String
  pub flush_at : Moment

-- A []byte becomes a string.
unfoldable pub plain : Value → Value
plain (bytes b) = text b
plain v = v

unfoldable pub after_map : List String → List Value → Row → Row
after_map [] vals row = row
after_map (c ∷ cs) [] row = row
after_map (c ∷ cs) (v ∷ vs) row = after_map cs vs (put c (plain v) row)

abbrev pub row_change : String → Row → RowChange
row_change table row = record {
  schema = "";
  table = table;
  action = insert;
  before_image = none;
  after_image = some row;
}

abbrev pub system_actor : ActorAttribution
system_actor = record {
  actor_user_id = none;
  actor_type = "SYSTEM";
  request_id = "";
  trigger_alert = false;
  severity_tier = "";
  reason = "";
}

abbrev pub bootstrap_position : Position
bootstrap_position = record { file = "bootstrap"; position = 0; gtid = "" }

abbrev pub failure_request : RunDraw → String → GoError → Request
failure_request d table e = record {
  trigger = "bootstrap_run_failure";
  severity = "normal";
  table_name = table;
  record_id = "";
  transaction_id = "";
  message =
      append "Bootstrap snapshot failed for table " (append table (append ": " (d.error_text e)));
  tested_at = d.alert_at;
  stamped_at = d.alert_at;
  raised_at = d.alert_at;
  fresh_id = d.alert_id;
}

unfoldable pub report : Request → Option Dispatcher → Option Dispatcher
report q none = none
report q (some disp) = some (trigger q disp).0

module _ (rt : Runtime) (codec : Codec) {S D : Type 0} (services : Services S)
    (update_status : String → String → D → D × Option GoError) (d : RunDraw) (table : String) where
  abbrev pub Run : Type 0
  Run = Runner S D × Option GoError

  unfoldable pub stop_run : String → GoError → Runner S D → Run
  stop_run what e r = (
    record r { dispatcher = report (failure_request d table e) r.dispatcher },
    some (wrapped what e),
  )

  unfoldable pub batched : String → Runner S D → Closed rt services → Run
  batched what r (b, s, none) = (record r { batcher = b; services = s }, none)
  batched what r (b, s, some e) = stop_run what e (record r { batcher = b; services = s })

  unfoldable pub take_row : RowDraw → Runner S D → Result Record → Run
  take_row w r (err e) = stop_run "failed to build bootstrap record" e r
  take_row w r (ok rec) =
      batched "failed to add bootstrap record to batcher" r
        (add_record rt services w.moment rec bootstrap_position r.batcher r.services)

  unfoldable pub scan_row :
      TableConfig → List String → RowDraw → ℕ → Runner S D → Result (List Value) → Run
  scan_row cfg cols w i r (err e) = stop_run "failed to scan bootstrap row" e r
  scan_row cfg cols w i r (ok vals) = take_row w r (
      build_record codec w.record_id (row_change table (after_map cols vals [])) cfg system_actor
        (append "bootstrap:" table) w.now i)

  -- The loop over the rows; `draws i` is for the row at place i.
  unfoldable pub take_rows :
      TableConfig → List String → (ℕ → RowDraw) → ℕ → List (Result (List Value)) → Runner S D → Run
  take_rows cfg cols draws i [] r = (r, none)
  take_rows cfg cols draws i (row ∷ rows) r =
      let (r', failed) = scan_row cfg cols (draws i) i r row in
      let later = take_rows cfg cols draws (suc i) rows r' in
      elim failed [ some e ↦ (r', some e) | none ↦ later ]

  -- After the flush: the status, then the configuration.
  unfoldable pub completed : TableConfig → Runner S D → D × Option GoError → Run
  completed cfg r (db, some e) =
      (record r { db = db }, some (wrapped "failed to update bootstrap status to complete" e))
  completed cfg r (db, none) = (
    record r {
      db = db;
      config_mgr = set_table_config (record cfg { bootstrap_status = "complete" }) r.config_mgr;
    },
    none,
  )

  unfoldable pub flushed : TableConfig → Run → Run
  flushed cfg (r, some e) = (r, some e)
  flushed cfg (r, none) = completed cfg r (update_status table "complete" r.db)

  unfoldable pub rows_taken : TableConfig → Run → Run
  rows_taken cfg (r, some e) = (r, some e)
  rows_taken cfg (r, none) = flushed cfg (
      batched "failed to flush bootstrap batch" r
        (flush rt services d.flush_at r.batcher r.services))

  unfoldable pub with_columns :
      TableConfig
      → (ℕ → RowDraw)
      → List (Result (List Value))
      → Runner S D
      → Result (List String)
      → Run
  with_columns cfg draws rows r (err e) = stop_run "failed to get columns" e r
  with_columns cfg draws rows r (ok cols) = rows_taken cfg (
      take_rows cfg cols draws 0 rows
        (record r { batcher = set_bootstrap_mode true table r.batcher }))

  unfoldable pub in_progress :
      TableConfig → (ℕ → RowDraw) → Answers → Runner S D → D × Option GoError → Run
  in_progress cfg draws a r (db, some e) =
      (record r { db = db }, some (wrapped "failed to update bootstrap status to in_progress" e))
  in_progress cfg draws a r (db, none) = elim a.begin [
    | some e ↦ stop_run "failed to begin consistent read transaction" e (record r { db = db })
    | none ↦ elim a.query [
      | some e ↦ stop_run "failed to query table for bootstrap" e (record r { db = db })
      | none ↦ with_columns cfg draws a.rows (record r { db = db }) a.columns
    ]
  ]

  unfoldable pub configured : (ℕ → RowDraw) → Answers → Runner S D → Option TableConfig → Run
  configured draws a r none = (r, some (failure "table not registered in audit config"))
  configured draws a r (some cfg) =
      in_progress cfg draws a r (update_status table "in_progress" r.db)

  unfoldable pub bootstrap_table : (ℕ → RowDraw) → Answers → Runner S D → Run
  bootstrap_table draws a r = configured draws a r (get_table_config table r.config_mgr)
