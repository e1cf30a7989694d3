-- ===== src/Examples/Logs.antt =====
-- The theorems on internal/binlog, internal/attribution and internal/config at a transaction of one
-- order.
use logs_tracker.Prelude.{
  ℕ, String, ◌≡◌, ◌≢◌, ◌↔◌, ◌⊎◌, inr, refl, true, false, none, some, List, [], ◌∷◌, ◌++◌, Occurs,
}
use logs_tracker.Prelude.Decimal.{decimal}
use logs_tracker.Prelude.Dict.{put}
use logs_tracker.Source.{insert, update, text, Position, RowChange, Transaction}
use logs_tracker.Config.{TableConfig, Manager, get_table_config}
use logs_tracker.Config.Events.{applied, last_effect, handle_all, handle_all-get}
use logs_tracker.Attribution.{correlate_transaction}
use logs_tracker.Attribution.Policy.{
  NamesActor, correlate_transaction-actor, correlate_transaction-alert,
}
use logs_tracker.Binlog.{
  Payload, parse_row_changes, action_of, row_map, column_name, write_rows, Event, query, xid, rows,
  ignored,
}
use logs_tracker.Binlog.Reader.{
  Reader, Input, event, start_at, unix_time, query_kind, read_loop, read_event, dispatch, on_rows,
  sent, update_checkpoint,
}
use logs_tracker.Binlog.Transactions.{
  row_changes, IsBegin, IsRollback, read_loop-transaction, read_loop-rollback,
}
use logs_tracker.Binlog.ColumnNames.{read_loop-unattributed}

abbrev upper : String → String
upper s = s

abbrev event_at : ℕ → Payload → Event
event_at n p = record { log_pos = n; timestamp = 1_700_000_000; payload = p }

abbrev begin_event : Event
begin_event = event_at 100 (query "BEGIN" "shop")

-- The TableMapEvent before the rows.
abbrev table_map : Event
table_map = event_at 150 ignored

abbrev order_event : Event
order_event = event_at 200 (
    rows (record {
      kind = write_rows;
      schema = "shop";
      table = "orders";
      rows = (text "o1" ∷ []) ∷ [];
    }))

abbrev xid_event : Event
xid_event = event_at 300 (xid 7)

abbrev rollback_event : Event
rollback_event = event_at 300 (query "ROLLBACK" "shop")

abbrev origin : Position
origin = record { file = "bin.1"; position = 4; gtid = "" }

begins : IsBegin upper begin_event
begins = ("BEGIN", "shop", refl, unfold query_kind in refl)

rolls_back : IsRollback upper rollback_event
rolls_back = ("ROLLBACK", "shop", refl, unfold query_kind in refl)

read_loop-transaction_example :
    (tx : Transaction) × (r' : Reader) × (read_loop upper
        (start_at origin)
        (event begin_event ∷ (event table_map ∷ event order_event ∷ []) ++ event xid_event ∷ [])
      ≡ ((read_loop upper r' []).0, tx ∷ (read_loop upper r' []).1))
    × (tx.changes ≡ row_changes (event table_map ∷ event order_event ∷ []))
    × (tx.committed_at ≡ unix_time 1_700_000_000)
    × (tx.position.position ≡ 300)
    × (r'.in_tx ≡ false)
    × (r'.current_pos.position ≡ 300)
read_loop-transaction_example =
    read_loop-transaction upper (start_at origin) begin_event xid_event
      (event table_map ∷ event order_event ∷ []) [] begins (tt, (tt, tt)) (inr (7, refl))

read_loop-rollback_example :
    (r' : Reader) × (read_loop upper (start_at origin) (
        event begin_event ∷ (event table_map ∷ event order_event ∷ []) ++ event rollback_event ∷ [])
      ≡ read_loop upper r' [])
    × (r'.in_tx ≡ false)
    × (r'.current_tx.changes ≡ [])
read_loop-rollback_example =
    read_loop-rollback upper (start_at origin) begin_event rollback_event
      (event table_map ∷ event order_event ∷ []) [] begins (tt, (tt, tt)) rolls_back

-- Orders alert.
abbrev orders : TableConfig
orders = record {
  table_name = "orders";
  enabled = true;
  unattributed_policy = "alert";
  severity_tier = "high";
  encrypted_columns = [];
  bootstrap_required = false;
  bootstrap_status = "";
  created_at = 0;
  updated_at = 0;
}

abbrev manager : Manager
manager = record { tables = ("orders", orders) ∷ [] }

abbrev order_change : RowChange
order_change = record {
  schema = "shop";
  table = "orders";
  action = insert;
  before_image = none;
  after_image = some (("id", text "o1") ∷ []);
}

abbrev context_change : RowChange
context_change = record {
  schema = "shop";
  table = "_audit_context";
  action = insert;
  before_image = none;
  after_image = some (("user_id", text "ann") ∷ []);
}

abbrev transaction : List RowChange → Transaction
transaction cs = record {
  transaction_id = "xid:7";
  position = origin;
  committed_at = 0;
  changes = cs;
  ddl_statement = "";
}

correlate_transaction-actor_example :
    (((correlate_transaction manager
          (transaction (order_change ∷ context_change ∷ []))
          "orders").actor_user_id
        ≡ none)
      × ((c : RowChange) (u : String)
          → Occurs c (order_change ∷ context_change ∷ [])
          → ¬ NamesActor c u))
    ⊎ ((c : RowChange) × (u : String) × Occurs c (order_change ∷ context_change ∷ [])
        × NamesActor c u
        × ((correlate_transaction manager
              (transaction (order_change ∷ context_change ∷ []))
              "orders").actor_user_id
            ≡ some u))
correlate_transaction-actor_example =
    correlate_transaction-actor manager (transaction (order_change ∷ context_change ∷ [])) "orders"

correlate_transaction-alert_example :
    ((correlate_transaction manager (transaction (order_change ∷ [])) "orders").trigger_alert
      ≡ true)
    ↔ (((c : RowChange) (u : String) → Occurs c (order_change ∷ []) → ¬ NamesActor c u)
        × ((cfg : TableConfig) × (get_table_config "orders" manager ≡ some cfg)
            × (cfg.unattributed_policy ≢ "tolerate")))
correlate_transaction-alert_example =
    correlate_transaction-alert manager (transaction (order_change ∷ [])) "orders"

abbrev config_change : RowChange
config_change = record {
  schema = "shop";
  table = "_audit_config";
  action = update;
  before_image = none;
  after_image =
      some (("table_name", text "orders") ∷ ("unattributed_policy", text "tolerate") ∷ []);
}

abbrev no_columns : String → List String
no_columns s = []

handle_all-get_example :
    get_table_config "orders" (handle_all no_columns (config_change ∷ order_change ∷ []) manager)
    ≡ applied
        (last_effect no_columns "orders" (config_change ∷ order_change ∷ []))
        (get_table_config "orders" manager)
handle_all-get_example =
    handle_all-get no_columns "orders" (config_change ∷ order_change ∷ []) manager

-- An insert into the context table that the reader sends.
abbrev context_event : Event
context_event = event_at 200 (
    rows (record {
      kind = write_rows;
      schema = "shop";
      table = "_audit_context";
      rows = (text "ann" ∷ []) ∷ [];
    }))

abbrev inputs : List Input
inputs = event context_event ∷ []

abbrev sent_change : RowChange
sent_change = record {
  schema = "shop";
  table = "_audit_context";
  action = insert;
  before_image = none;
  after_image = some (("col_0", text "ann") ∷ []);
}

abbrev sent_transaction : Transaction
sent_transaction = record {
  transaction_id = "bin.1:200";
  position = record { file = "bin.1"; position = 200; gtid = "" };
  committed_at = 1_700_000_000_000_000_000;
  changes = sent_change ∷ [];
  ddl_statement = "";
}

is_sent : Occurs sent_transaction (read_loop upper (start_at origin) inputs).1
unfolding read_loop read_event dispatch on_rows sent parse_row_changes action_of row_map column_name
    decimal update_checkpoint put
is_sent = (0, refl)

read_loop-unattributed_example :
    (correlate_transaction manager sent_transaction "orders").actor_user_id ≡ none
read_loop-unattributed_example =
    read_loop-unattributed upper origin inputs sent_transaction is_sent manager "orders"
