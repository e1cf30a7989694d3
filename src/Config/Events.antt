-- ===== src/Config/Events.antt =====
-- The configuration of a table after binlog events: the last change that names it decides.
use logs_tracker.Prelude.{
  String, ◌≡◌, refl, ap, ◌∙◌, sym, Option, none, some, List, [], ◌∷◌, arith, str_eq, if◌then◌else◌,
}
use logs_tracker.Prelude.Dict.{get, get-put, get-delete}
use logs_tracker.Source.{EventType, insert, update, remove, Row, RowChange}
use logs_tracker.Config.{
  TableConfig, Manager, get_table_config, text_or, parse_config_from_map, store_row, drop_row,
  on_action, handle_binlog_event,
}

-- What one change means for one table.
pub data Effect : Type 0 where
  keep : Effect
  assign : TableConfig → Effect
  unset : Effect

abbrev pub applied : Effect → Option TableConfig → Option TableConfig
applied keep o = o
applied (assign cfg) o = some cfg
applied unset o = none

abbrev pub row_name : Row → String
row_name row = text_or "" (get "table_name" row)

module _ (unmarshal_columns : String → List String) where
  abbrev pub assigns : String → Option Row → Effect
  assigns j none = keep
  assigns j (some row) =
      if str_eq (row_name row) j then assign (parse_config_from_map unmarshal_columns row) else keep

  abbrev pub unsets : String → Option Row → Effect
  unsets j none = keep
  unsets j (some row) =
      if str_eq (row_name row) "" then keep else if str_eq (row_name row) j then unset else keep

  abbrev pub action_effect : String → EventType → RowChange → Effect
  action_effect j insert c = assigns j c.after_image
  action_effect j update c = assigns j c.after_image
  action_effect j remove c = unsets j c.before_image
  action_effect j a c = keep

  -- A change of another table than `_audit_config` means nothing.
  abbrev pub effect_on : String → RowChange → Effect
  effect_on j c = if str_eq c.table "_audit_config" then action_effect j c.action c else keep

  store_row-get :
      (j : String) (o : Option Row) (m : Manager)
      → get_table_config j (store_row unmarshal_columns o m)
        ≡ applied (assigns j o) (get_table_config j m)
  unfolding get_table_config store_row parse_config_from_map
  store_row-get j none m = refl
  store_row-get j (some row) m =
      ground
        (arith, get-put j (row_name row) (parse_config_from_map unmarshal_columns row) m.tables)

  drop_row-get :
      (j : String) (o : Option Row) (m : Manager)
      → get_table_config j (drop_row unmarshal_columns o m)
        ≡ applied (unsets j o) (get_table_config j m)
  unfolding get_table_config drop_row
  drop_row-get j none m = refl
  drop_row-get j (some row) m = ground (arith, get-delete j (row_name row) m.tables)

  on_action-get :
      (j : String) (a : EventType) (c : RowChange) (m : Manager)
      → get_table_config j (on_action unmarshal_columns a c m)
        ≡ applied (action_effect j a c) (get_table_config j m)
  unfolding on_action
  on_action-get j insert c m = store_row-get j c.after_image m
  on_action-get j update c m = store_row-get j c.after_image m
  on_action-get j remove c m = drop_row-get j c.before_image m
  on_action-get j _ c m = refl

  pub handle_binlog_event-get :
      (j : String) (c : RowChange) (m : Manager)
      → get_table_config j (handle_binlog_event unmarshal_columns c m)
        ≡ applied (effect_on j c) (get_table_config j m)
  unfolding handle_binlog_event
  handle_binlog_event-get j c m = ground (arith, on_action-get j c.action c m)

  -- The handler over a stream of changes, as the pipeline calls it.
  abbrev pub handle_all : List RowChange → Manager → Manager
  handle_all [] m = m
  handle_all (c ∷ cs) m = handle_all cs (handle_binlog_event unmarshal_columns c m)

  abbrev later : Effect → Effect → Effect
  later e keep = e
  later e e' = e'

  -- The last effect on a table that is not `keep`.
  abbrev pub last_effect : String → List RowChange → Effect
  last_effect j [] = keep
  last_effect j (c ∷ cs) = later (effect_on j c) (last_effect j cs)

  applied-later :
      (e e' : Effect) (o : Option TableConfig) → applied (later e e') o ≡ applied e' (applied e o)
  applied-later e keep o = refl
  applied-later e (assign cfg) o = refl
  applied-later e unset o = refl

  -- After any stream of changes the configuration of a table is what the last change that names it
  -- made it: the values of its new row, or nothing after a delete. A change of another table, a
  -- DDL change and a change with no image count for nothing.
  pub handle_all-get :
      (j : String) (cs : List RowChange) (m : Manager)
      → get_table_config j (handle_all cs m) ≡ applied (last_effect j cs) (get_table_config j m)
  handle_all-get j [] m = refl
  handle_all-get j (c ∷ cs) m =
      handle_all-get j cs (handle_binlog_event unmarshal_columns c m)
      ∙ ap (applied (last_effect j cs)) (handle_binlog_event-get j c m)
      ∙ sym (applied-later (effect_on j c) (last_effect j cs) (get_table_config j m))
