-- ===== src/Binlog.antt =====
-- internal/binlog/client.go: the events of the MySQL binlog, as the replication library hands them
-- over, and the row changes that are read off a rows event.
pub mod Rows
pub mod Reader
pub mod Start
pub mod Changes
pub mod Transactions
pub mod ColumnNames
use mathlib.Core.List.{map}
use text.Mathlib.Text.{starts_with}
use logs_tracker.Prelude.{
  ℕ, zero, suc, ◌+◌, ◌*◌, ◌%◌, ◌^◌, String, append, Bool, true, false, ◌||◌, Option, none, some,
  List, [], ◌∷◌, ◌++◌, str_eq, ltb, if◌then◌else◌,
}
use logs_tracker.Prelude.Decimal.{decimal}
use logs_tracker.Prelude.Dict.{put}
use logs_tracker.Source.{
  EventType, insert, update, remove, ddl, no_action, Value, Row, Position, RowChange, Transaction,
}

-- The kind of a rows event, from its header.
pub data RowsKind : Type 0 where
  write_rows update_rows delete_rows other_rows : RowsKind

pub record RowsEvent : Type 0 where
  pub kind : RowsKind
  pub schema : String
  pub table : String
  pub rows : List (List Value)

pub data Payload : Type 0 where
  rotate : String → ℕ → Payload
  query : String → String → Payload
  xid : ℕ → Payload
  rows : RowsEvent → Payload
  ignored : Payload

pub record Event : Type 0 where
  pub log_pos : ℕ
  pub timestamp : ℕ
  pub payload : Payload

-- The columns of a row are named by their places.
unfoldable pub column_name : ℕ → String
column_name i = append "col_" (decimal i)

columns_from : ℕ → List Value → Row → Row
columns_from i [] row = row
columns_from i (v ∷ vs) row = columns_from (suc i) vs (put (column_name i) v row)

unfoldable pub row_map : List Value → Row
unfolding columns_from
row_map vs = columns_from 0 vs []

unfoldable pub action_of : RowsKind → EventType
action_of write_rows = insert
action_of update_rows = update
action_of delete_rows = remove
action_of other_rows = no_action

module _ (schema table : String) where
  inserted : List Value → RowChange
  inserted row = record {
    schema = schema;
    table = table;
    action = insert;
    before_image = none;
    after_image = some (row_map row);
  }

  removed : List Value → RowChange
  removed row = record {
    schema = schema;
    table = table;
    action = remove;
    before_image = some (row_map row);
    after_image = none;
  }

  -- Rows of an update come in pairs, before and after; a last one without its pair is left out.
  unfoldable pub updated : List (List Value) → List RowChange
  updated [] = []
  updated (before ∷ []) = []
  updated (before ∷ after ∷ rest) =
      record {
        schema = schema;
        table = table;
        action = update;
        before_image = some (row_map before);
        after_image = some (row_map after);
      }
      ∷ updated rest

  -- `parseRowChanges`
  unfoldable pub parse_row_changes : EventType → List (List Value) → List RowChange
  unfolding inserted removed updated
  parse_row_changes insert rs = map inserted rs
  parse_row_changes remove rs = map removed rs
  parse_row_changes update rs = updated rs
  parse_row_changes a rs = []

abbrev pub changes_of : RowsEvent → List RowChange
changes_of e = parse_row_changes e.schema e.table (action_of e.kind) e.rows
