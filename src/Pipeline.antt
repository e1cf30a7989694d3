-- ===== src/Pipeline.antt =====
-- internal/pipeline/pipeline.go: each transaction updates the configuration, and each of its changes
-- of an audited table becomes a record of the open batch.
pub mod Audited
pub mod Stored
use logs_tracker.Prelude.{
  ℕ, suc, String, append, Bool, true, false, ◌||◌, Option, none, some, List, [], ◌∷◌, str_eq,
  if◌then◌else◌,
}
use logs_tracker.Errors.{GoError, wrapped, Result, ok, err}
use logs_tracker.Source.{RowChange, Transaction, Position}
use logs_tracker.Config.{TableConfig, Manager, get_table_config, handle_binlog_event}
use logs_tracker.Attribution.{ActorAttribution, correlate_transaction}
use logs_tracker.Alerting.{Dispatcher, Request, trigger}
use logs_tracker.Store.{Record}
use logs_tracker.Snapshot.{Codec, build_record}
use logs_tracker.Merkle.Payload.{Runtime}
use logs_tracker.Batch.{
  Batcher, Services, Moment, Closed, add_record, close, on_timer, current_event_count,
}

-- What the handling of one change reads of the clock and of `uuid.New`, and whether the timer of the
-- batcher runs out before it, and when.
pub record Draw : Type 0 where
  pub record_id : String
  pub alert_id : String
  pub tested_at : ℕ
  pub stamped_at : ℕ
  pub raised_at : ℕ
  pub moment : Moment
  pub timer : Option Moment

-- The dispatcher may be nil. `S` is the state of the batcher's services.
pub record State (S : Type 0) : Type 0 where
  pub config_mgr : Manager
  pub dispatcher : Option Dispatcher
  pub batcher : Batcher
  pub services : S

unfoldable pub is_internal : RowChange → Bool
is_internal c = str_eq c.table "_audit_config" || str_eq c.table "_audit_context"

-- The arguments of `Trigger`.
abbrev pub alert_request : Draw → ActorAttribution → RowChange → Record → String → Request
alert_request d attr c rec tx_id = record {
  trigger = "unattributed_change";
  severity = attr.severity_tier;
  table_name = c.table;
  record_id = rec.id;
  transaction_id = tx_id;
  message = attr.reason;
  tested_at = d.tested_at;
  stamped_at = d.stamped_at;
  raised_at = d.raised_at;
  fresh_id = d.alert_id;
}

unfoldable pub raise : Request → Bool → Option Dispatcher → Option Dispatcher
raise q mandated none = none
raise q mandated (some disp) = if mandated then some (trigger q disp).0 else some disp

module _ (unmarshal_columns : String → List String) where
  -- The first loop.
  unfoldable pub update_configs : List RowChange → Manager → Manager
  update_configs [] m = m
  update_configs (c ∷ cs) m =
      let m' =
        if str_eq c.table "_audit_config" then handle_binlog_event unmarshal_columns c m else m in
      update_configs cs m'

-- The configuration of an audited table.
unfoldable pub audit_config : RowChange → Manager → Option TableConfig
audit_config c m = if is_internal c then none else elim (get_table_config c.table m) [
  | none ↦ none
  | some cfg ↦ if cfg.enabled then some cfg else none
]

module _ (rt : Runtime) (codec : Codec) {S : Type 0} (services : Services S) where
  unfoldable pub record_added : State S → Closed rt services → State S × Option GoError
  record_added st (b, s, none) = (record st { batcher = b; services = s }, none)
  record_added st (b, s, some e) =
      (record st { batcher = b; services = s }, some (wrapped "failed to add record to batch" e))

  -- The alert, then the record.
  unfoldable pub take_record :
      Draw
      → Transaction
      → RowChange
      → ActorAttribution
      → State S
      → Result Record
      → State S × Option GoError
  take_record d tx c attr st (err e) = (st, some (wrapped "failed to build snapshot record" e))
  take_record d tx c attr st (ok rec) =
      let disp =
        raise (alert_request d attr c rec tx.transaction_id) attr.trigger_alert st.dispatcher in
      record_added (record st { dispatcher = disp })
        (add_record rt services d.moment rec tx.position st.batcher st.services)

  unfoldable pub audit :
      Draw → Transaction → RowChange → State S → Option TableConfig → State S × Option GoError
  audit d tx c st none = (st, none)
  audit d tx c st (some cfg) =
      let attr = correlate_transaction st.config_mgr tx c.table in
      take_record d tx c attr st (
        build_record codec d.record_id c cfg attr tx.transaction_id tx.committed_at
          (current_event_count st.batcher))

  -- The batcher's timer closes the open batch, and its error is dropped.
  unfoldable pub ticked : Option Moment → State S → State S
  ticked none st = st
  ticked (some t) st =
      let (b, s, ignored) = on_timer rt services t st.batcher st.services in
      record st { batcher = b; services = s }

  -- The second loop; `draws i` is for the change at place i, and the first error ends the loop. The
  -- timer may run out before each change, and after the last.
  unfoldable pub audit_all :
      (ℕ → Draw) → Transaction → ℕ → List RowChange → State S → State S × Option GoError
  unfolding ticked
  audit_all draws tx i [] st = (ticked (draws i).timer st, none)
  audit_all draws tx i (c ∷ cs) st =
      let now = ticked (draws i).timer st in
      let (st', failed) = audit (draws i) tx c now (audit_config c now.config_mgr) in
      let later = audit_all draws tx (suc i) cs st' in
      elim failed [ some e ↦ (st', some e) | none ↦ later ]

  unfoldable pub process_transaction :
      (String → List String) → (ℕ → Draw) → Transaction → State S → State S × Option GoError
  process_transaction unmarshal_columns draws tx st =
      audit_all draws tx 0 tx.changes
        (record st { config_mgr = update_configs unmarshal_columns tx.changes st.config_mgr })

  -- The transactions of the stream, until it ends or the context is cancelled; an error is logged
  -- and the next transaction is processed. Then the batcher is closed.
  unfoldable pub run :
      (String → List String)
      → Moment
      → List ((ℕ → Draw) × Transaction)
      → State S
      → State S × Option GoError
  run unmarshal_columns t [] st =
      let (b, s, failed) = close rt services t st.batcher st.services in
      (record st { batcher = b; services = s }, failed)
  run unmarshal_columns t ((draws, tx) ∷ rest) st =
      run unmarshal_columns t rest (process_transaction unmarshal_columns draws tx st).0
