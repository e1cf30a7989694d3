-- ===== src/Binlog/ColumnNames.antt =====
-- What follows for attribution and configuration from the column names that internal/binlog/client.go
-- gives to a row: neither component finds the column that it looks for.
use logs_tracker.Prelude.{
  String, ◌≡◌, ◌≢◌, refl, ap, ◌∙◌, Option, none, some, List, inl, inr, arith, All, All-Occurs,
  Occurs, eq_iff,
}
use logs_tracker.Prelude.Dict.{get}
use logs_tracker.Source.{EventType, insert, update, remove, Row, Position, RowChange, Transaction}
use logs_tracker.Config.{Manager, get_table_config, handle_binlog_event, text_or}
use logs_tracker.Config.Events.{
  keep, applied, assigns, unsets, action_effect, effect_on, handle_binlog_event-get,
}
use logs_tracker.Attribution.{correlate_transaction}
use logs_tracker.Attribution.Policy.{NamesActor, correlate_transaction-actor}
use logs_tracker.Binlog.{action_of}
use logs_tracker.Binlog.Reader.{Input, start_at, read_loop}
use logs_tracker.Binlog.Rows.{
  NoColumn, NoColumn-user_id, NoColumn-table_name, Lacks, LacksColumn,
  parse_row_changes-LacksColumn,
}
use logs_tracker.Binlog.Changes.{read_loop-All}

Lacks-none : (k : String) (o : Option Row) → o ≡ none → Lacks k o
Lacks-none k none e = tt
Lacks-none k (some row) e = cc

Lacks-some : (k : String) (o : Option Row) (row : Row) → Lacks k o → o ≡ some row → get k row ≡ none
Lacks-some k none row h e = cc
Lacks-some k (some r) row h e = let q : r ≡ row = cc in rw (← q) h

-- No change that is sent has a column of another name.
read_loop-LacksColumn :
    (k : String)
    → NoColumn k
    → (upper_trim : String → String) (p : Position) (inputs : List Input)
    → All (λ tx. All (LacksColumn k) tx.changes) (read_loop upper_trim (start_at p) inputs).1
read_loop-LacksColumn k n upper_trim p inputs =
    read_loop-All (LacksColumn k)
      (λ re. parse_row_changes-LacksColumn k n re.schema re.table (action_of re.kind) re.rows)
      (λ c b a. record { before = Lacks-none k _ b; after = Lacks-none k _ a }) upper_trim
      (start_at p) inputs tt

module _ (unmarshal_columns : String → List String) (j : String) (nonempty : j ≢ "") where
  assigns-keep : (o : Option Row) → Lacks "table_name" o → assigns unmarshal_columns j o ≡ keep
  unfolding text_or
  assigns-keep none h = refl
  assigns-keep (some row) h = ground (arith, eq_iff "" j)

  unsets-keep : (o : Option Row) → Lacks "table_name" o → unsets unmarshal_columns j o ≡ keep
  unfolding text_or
  unsets-keep none h = refl
  unsets-keep (some row) h = ground (arith, eq_iff "" j)

  action_effect-keep :
      (a : EventType) (c : RowChange)
      → LacksColumn "table_name" c
      → action_effect unmarshal_columns j a c ≡ keep
  action_effect-keep insert c h = assigns-keep c.after_image h.after
  action_effect-keep update c h = assigns-keep c.after_image h.after
  action_effect-keep remove c h = unsets-keep c.before_image h.before
  action_effect-keep _ c h = refl

  effect_on-keep :
      (c : RowChange) → LacksColumn "table_name" c → effect_on unmarshal_columns j c ≡ keep
  effect_on-keep c h = ground (arith, action_effect-keep c.action c h)

module _ (upper_trim : String → String) (p : Position) (inputs : List Input) (tx : Transaction)
    (is_sent : Occurs tx (read_loop upper_trim (start_at p) inputs).1) where
  sent-LacksColumn : (k : String) → NoColumn k → All (LacksColumn k) tx.changes
  sent-LacksColumn k n =
      All-Occurs (λ t. All (LacksColumn k) t.changes) _ tx
        (read_loop-LacksColumn k n upper_trim p inputs) is_sent

  NamesActor-sent : (c : RowChange) (u : String) → Occurs c tx.changes → ¬ NamesActor c u
  NamesActor-sent c u o names =
      let lacks =
        All-Occurs (LacksColumn "user_id") tx.changes c
          (sent-LacksColumn "user_id" NoColumn-user_id) o in
      cc (names.user, Lacks-some "user_id" c.after_image names.row lacks.after names.image)

  -- No change of a transaction that the binlog reader sends is ever attributed to a user, whatever
  -- the context rows of the transaction hold: the reader names columns col_0, col_1, … and the
  -- correlator looks for `user_id`.
  pub read_loop-unattributed :
      (m : Manager) (table : String) → (correlate_transaction m tx table).actor_user_id ≡ none
  read_loop-unattributed m table = elim (correlate_transaction-actor m tx table) [
    | inl (e, _) ↦ e
    | inr (c, u, o, names, _) ↦ absurd (NamesActor-sent c u o names)
  ]

  -- No change that the binlog reader sends alters the audit configuration of a table, unless the
  -- name of the table is empty.
  pub read_loop-config :
      (unmarshal_columns : String → List String) (m : Manager) (c : RowChange) (table : String)
      → Occurs c tx.changes
      → table ≢ ""
      → get_table_config table (handle_binlog_event unmarshal_columns c m)
        ≡ get_table_config table m
  read_loop-config unmarshal_columns m c table o n =
      let lacks =
        All-Occurs (LacksColumn "table_name") tx.changes c
          (sent-LacksColumn "table_name" NoColumn-table_name) o in
      handle_binlog_event-get unmarshal_columns table c m
      ∙ ap (λ e. applied e (get_table_config table m))
          (effect_on-keep unmarshal_columns table n c lacks)
