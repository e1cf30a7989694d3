-- ===== src/Config.antt =====
-- internal/config/config.go: the audit configuration of each table, loaded from MySQL and kept up
-- to date from the binlog. `json.Unmarshal` into the list of columns is a parameter: what it leaves
-- in the list, whether it fails or not.
pub mod Events
use logs_tracker.Prelude.{
  ℕ, String, Bool, true, false, Option, none, some, List, [], ◌∷◌, ◌++◌, map, str_eq, ◌==◌,
  if◌then◌else◌,
}
use logs_tracker.Prelude.Int.{ℤ, pos, negsuc}
use logs_tracker.Prelude.Dict.{Dict, get, put, delete}
use logs_tracker.Errors.{GoError, Result, ok, err, wrapped}
use logs_tracker.Source.{
  EventType, insert, update, remove, Value, text, boolean, int64, bytes, items, Values, nil, cons,
  Row, RowChange,
}

pub record TableConfig : Type 0 where
  pub table_name : String
  pub enabled : Bool
  pub unattributed_policy : String
  pub severity_tier : String
  pub encrypted_columns : List String
  pub bootstrap_required : Bool
  pub bootstrap_status : String
  pub created_at : ℕ
  pub updated_at : ℕ

pub record Manager : Type 0 where
  pub tables : Dict TableConfig

abbrev pub new_manager : Manager
new_manager = record { tables = [] }

unfoldable pub set_table_config : TableConfig → Manager → Manager
set_table_config cfg m = record { tables = put cfg.table_name cfg m.tables }

unfoldable pub get_table_config : String → Manager → Option TableConfig
get_table_config table m = get table m.tables

unfoldable pub get_all_configs : Manager → List TableConfig
get_all_configs m = map (λ (e : String × TableConfig). e.1) m.tables

unfoldable pub is_audited : String → Manager → Bool
is_audited table m = elim (get table m.tables) [ none ↦ false | some cfg ↦ cfg.enabled ]

-- `v, ok := x.(string)`, for what a row holds at a column.
unfoldable pub text_or : String → Option Value → String
text_or d (some (text s)) = s
text_or d v = d

-- A bool, or an int64 that is 1; anything else is false.
unfoldable pub flag : Option Value → Bool
flag (some (boolean b)) = b
flag (some (int64 (pos n))) = n == 1
flag v = false

texts : Values → List String
texts nil = []
texts (cons (text s) vs) = s ∷ texts vs
texts (cons v vs) = texts vs

module _ (unmarshal_columns : String → List String) where
  unfoldable pub columns : Option Value → List String
  unfolding texts
  columns (some (text s)) = unmarshal_columns s
  columns (some (bytes s)) = unmarshal_columns s
  columns (some (items vs)) = texts vs
  columns v = []

  unfoldable pub parse_config_from_map : Row → TableConfig
  parse_config_from_map row = record {
    table_name = text_or "" (get "table_name" row);
    enabled = flag (get "enabled" row);
    unattributed_policy = text_or "tolerate" (get "unattributed_policy" row);
    severity_tier = text_or "normal" (get "severity_tier" row);
    encrypted_columns = columns (get "encrypted_columns" row);
    bootstrap_required = flag (get "bootstrap_required" row);
    bootstrap_status = text_or "not_started" (get "bootstrap_status" row);
    created_at = 0;
    updated_at = 0;
  }

  store_row : Option Row → Manager → Manager
  store_row none m = m
  store_row (some row) m =
      let cfg = parse_config_from_map row in record { tables = put cfg.table_name cfg m.tables }

  drop_row : Option Row → Manager → Manager
  drop_row none m = m
  drop_row (some row) m =
      let name = text_or "" (get "table_name" row) in
      if str_eq name "" then m else record { tables = delete name m.tables }

  on_action : EventType → RowChange → Manager → Manager
  on_action insert change m = store_row change.after_image m
  on_action update change m = store_row change.after_image m
  on_action remove change m = drop_row change.before_image m
  on_action a change m = m

  -- The handler returns nil on every branch.
  unfoldable pub handle_binlog_event : RowChange → Manager → Manager
  unfolding store_row drop_row on_action
  handle_binlog_event change m =
      if str_eq change.table "_audit_config" then on_action change.action change m else m

  -- A row of the query, with the text of its encrypted columns, or the error of `Scan`.
  pub record ScannedRow : Type 0 where
    pub config : TableConfig
    pub columns_text : String

  -- The loop over the rows: an error keeps what was stored before it.
  load_rows : List (Result ScannedRow) → Manager → Manager × Option GoError
  load_rows [] m = (m, none)
  load_rows (err e ∷ rows) m = (m, some (wrapped "failed to scan _audit_config row" e))
  load_rows (ok r ∷ rows) m = load_rows rows (
      set_table_config
        (record r.config {
          encrypted_columns =
              if str_eq r.columns_text "" then [] else unmarshal_columns r.columns_text;
        })
        m)

  -- The query's rows, or its error, are the database's.
  unfoldable pub load_from_db :
      Result (List (Result ScannedRow)) → Manager → Manager × Option GoError
  unfolding load_rows set_table_config
  load_from_db (err e) m = (m, some (wrapped "failed to query _audit_config" e))
  load_from_db (ok rows) m = load_rows rows m
